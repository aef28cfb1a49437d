-- ===== src/Sandbox/Cases.antt =====
-- Words of capital letters in a text, whatever the case of the letters in the text.
use beamline_caf.Base.{
  ℕ, ◌+◌, ◌≡◌, refl, ap, ap₂, ◌∙◌, ◌⊎◌, ◌↔◌, Bool, true, ◌&&◌, leb, List, [], ◌∷◌, ◌++◌, map, all,
  String, codes, to_upper, Holds, arith,
}
use beamline_caf.Sandbox.{upper}

-- The letters of the text are those of the word, each as a capital or as its small letter.
abbrev pub IsCaseOf : List ℕ → List ℕ → Type 0
IsCaseOf [] [] = Unit
IsCaseOf [] (k ∷ ks) = ⊥
IsCaseOf (c ∷ cs) [] = ⊥
IsCaseOf (c ∷ cs) (k ∷ ks) = ((c ≡ k) ⊎ (c ≡ k + 32)) × IsCaseOf cs ks

-- The word stands in the text in some case.
abbrev pub HoldsWord : String → String → Type 0
HoldsWord text word =
    (before : List ℕ) × (spelled : List ℕ) × (after : List ℕ) × (codes text
      ≡ before ++ (spelled ++ after))
    × IsCaseOf spelled (codes word)

abbrev pub is_capital : ℕ → Bool
is_capital k = leb b'A' k && leb k b'Z'

to_upper_capital : (c k : ℕ) → is_capital k ≡ true → (to_upper c ≡ k) ↔ ((c ≡ k) ⊎ (c ≡ k + 32))
unfolding to_upper
to_upper_capital c k capital = (λ h. ground arith, λ h. ground arith)

map-to_upper : (cs ks : List ℕ) → all is_capital ks ≡ true → (map to_upper cs ≡ ks) ↔ IsCaseOf cs ks
map-to_upper [] [] capitals = (λ h. tt, λ h. refl)
map-to_upper [] (k ∷ ks) capitals = (λ h. cc, λ h. absurd h)
map-to_upper (c ∷ cs) [] capitals = (λ h. cc, λ h. absurd h)
map-to_upper (c ∷ cs) (k ∷ ks) capitals =
    let (there, back) = to_upper_capital c k (ground arith) in
    let (there_all, back_all) = map-to_upper cs ks (ground arith) in
    (
      λ h.
          let first : to_upper c ≡ k = cc in
          let rest : map to_upper cs ≡ ks = cc in (there first, there_all rest),
      λ (first, rest). ap₂ (λ d l. d ∷ l) (back first) (back_all rest),
    )

map_split :
    (f : ℕ → ℕ) (s xs ys : List ℕ)
    → map f s ≡ xs ++ ys
    → (s1 : List ℕ) × (s2 : List ℕ) × (s ≡ s1 ++ s2) × (map f s1 ≡ xs) × (map f s2 ≡ ys)
map_split f s [] ys e = ([], s, refl, refl, e)
map_split f [] (x ∷ xs) ys e = cc
map_split f (c ∷ s) (x ∷ xs) ys e =
    let rest : map f s ≡ xs ++ ys = cc in
    let first : f c ≡ x = cc in
    let (s1, s2, same, front, back) = map_split f s xs ys rest in
    (c ∷ s1, s2, ap (λ l. c ∷ l) same, ap₂ (λ d l. d ∷ l) first front, back)

map-join : (f : ℕ → ℕ) (xs ys : List ℕ) → map f (xs ++ ys) ≡ map f xs ++ map f ys
map-join f [] ys = refl
map-join f (x ∷ xs) ys = ap (λ l. f x ∷ l) (map-join f xs ys)

-- The text as capitals holds the word exactly when the text holds it in some case.
pub Holds-upper :
    (text word : String)
    → all is_capital (codes word) ≡ true
    → Holds (upper text) (codes word) ↔ HoldsWord text word
Holds-upper text word capitals = (
  λ (before, after, e).
      let (s1, s2, same, _, rest) =
        map_split to_upper (codes text) before (codes word ++ after) e in
      let (w, t, same', spelled, _) = map_split to_upper s2 (codes word) after rest in
      (s1, w, t, same ∙ ap (λ l. s1 ++ l) same', (map-to_upper w (codes word) capitals).0 spelled),
  λ (before, w, after, e, spelled). (
    map to_upper before,
    map to_upper after,
    ap (map to_upper) e
        ∙ map-join to_upper before (w ++ after)
        ∙ ap (λ l. map to_upper before ++ l)
            (map-join to_upper w after
              ∙ ap (λ l. l ++ map to_upper after)
                  ((map-to_upper w (codes word) capitals).1 spelled)),
  ),
)
