-- ===== src/Sandbox/Checks.antt =====
-- Which requests the sandbox lets through.
use beamline_caf.Base.{
  ◌≡◌, refl, sym, ap, ◌∙◌, ◌↔◌, inl, inr, Bool, false, ◌&&◌, List, [], ◌∷◌, any, all, true, All,
  String, ◌=ˢ◌, codes, has_infix, lookup, Option, some, Bool-cases, Option-cases, arith, eq_iff,
  BeginsWith, not-find_is_zero_iff, not-has_infix_iff,
}
use beamline_caf.Core.{StepRequest, value}
use beamline_caf.Sandbox.Cases.{HoldsWord, is_capital, Holds-upper}
use beamline_caf.Sandbox.{
  upper, forbidden_keywords, runs_system, on_input, is_file_url, is_destructive, opens_file,
  destroys, validate_sandbox_request,
}

-- The type of the request begins with neither of the system's prefixes; the URL of an HTTP request does
-- not begin with "file://" or "ftp://", in these letters; and an SQL query holds none of the forbidden
-- words anywhere, also not inside of another word, each letter as a capital or a small one.
pub record IsSafe (request : StepRequest) : Type 0 where
  pub no_exec : ¬ BeginsWith request.type "exec."
  pub no_system : ¬ BeginsWith request.type "system."
  pub no_file :
      (url : String)
      → request.type ≡ "http.request"
      → lookup "url" request.inputs ≡ some url
      → (¬ BeginsWith url "file://") × (¬ BeginsWith url "ftp://")
  pub no_keyword :
      (query : String)
      → request.type ≡ "sql.query"
      → lookup "query" request.inputs ≡ some query
      → All (λ keyword. ¬ HoldsWord query keyword) forbidden_keywords

any-All : {A : Type 0} (p : A → Bool) (xs : List A) → (any p xs ≡ false) ↔ All (λ x. p x ≡ false) xs
any-All p [] = (λ h. tt, λ h. refl)
any-All p (x ∷ xs) =
    let (there, back) = any-All p xs in
    (λ h. (ground arith, there (ground arith)), λ h. ground (arith, h.0, back h.1))

All-map :
    {A : Type 0} {R P Q : A → Type 0} (xs : List A)
    → All R xs
    → ((x : A) → R x → P x → Q x)
    → All P xs
    → All Q xs
All-map [] r f h = tt
All-map (x ∷ xs) r f h = (f x r.0 h.0, All-map xs r.1 f h.1)

-- The forbidden words are of capital letters.
capitals : All (λ keyword. all is_capital (codes keyword) ≡ true) forbidden_keywords
capitals = (refl, (refl, (refl, (refl, (refl, (refl, (refl, tt)))))))

runs_system_iff :
    (request : StepRequest)
    → (runs_system request ≡ false)
      ↔ ((¬ BeginsWith request.type "exec.") × (¬ BeginsWith request.type "system."))
unfolding runs_system
runs_system_iff request =
    let exec = not-find_is_zero_iff request.type "exec." in
    let system = not-find_is_zero_iff request.type "system." in
    (
      λ h. (exec.0 (ground arith), system.0 (ground arith)),
      λ h. ground (arith, exec.1 h.0, system.1 h.1),
    )

-- A check of an input of the requests of one type.
guarded_iff :
    (request : StepRequest) (type : String) (input : Option String) (test : String → Bool)
    (P : String → Type 0)
    → ((text : String) → (test text ≡ false) ↔ P text)
    → ((request.type =ˢ type) && on_input test input ≡ false)
      ↔ ((text : String) → request.type ≡ type → input ≡ some text → P text)
guarded_iff request type input test P each = (
  λ h text own held.
      (each text).0 (on_held held (ground (arith, (eq_iff request.type type).1 own))),
  λ f. elim (Bool-cases (request.type =ˢ type)) [
    | inr other ↦ rw other refl
    | inl own ↦ elim (Option-cases input) [
      | inl missing ↦ rw (own, missing) refl
      | inr (text, held) ↦
          rw (own, held) ((each text).1 (f text ((eq_iff request.type type).0 own) held))
    ]
  ],
)
  where
    on_held : {text : String} → input ≡ some text → on_input test input ≡ false → test text ≡ false
    on_held held h = sym (ap (on_input test) held) ∙ h

opens_file_iff :
    (request : StepRequest)
    → (opens_file request ≡ false) ↔ (
        (url : String)
        → request.type ≡ "http.request"
        → lookup "url" request.inputs ≡ some url
        → (¬ BeginsWith url "file://") × (¬ BeginsWith url "ftp://"))
unfolding opens_file
opens_file_iff request =
    guarded_iff request "http.request" (lookup "url" request.inputs) is_file_url _ λ url.
      let file = not-find_is_zero_iff url "file://" in
      let ftp = not-find_is_zero_iff url "ftp://" in
      (
        λ h. (file.0 (ground arith), ftp.0 (ground arith)),
        λ h. ground (arith, file.1 h.0, ftp.1 h.1),
      )

destroys_iff :
    (request : StepRequest)
    → (destroys request ≡ false) ↔ (
        (query : String)
        → request.type ≡ "sql.query"
        → lookup "query" request.inputs ≡ some query
        → All (λ keyword. ¬ HoldsWord query keyword) forbidden_keywords)
unfolding destroys
destroys_iff request =
    guarded_iff request "sql.query" (lookup "query" request.inputs) is_destructive _ λ query.
      let (each, back) =
        any-All (λ keyword. has_infix (upper query) (codes keyword)) forbidden_keywords in
      (
        λ h.
            All-map {P = λ k. has_infix (upper query) (codes k) ≡ false}
              {Q = λ k. ¬ HoldsWord query k} forbidden_keywords capitals
              (λ k r g held.
                (not-has_infix_iff (upper query) (codes k)).0 g ((Holds-upper query k r).1 held))
              (each h),
        λ h. back (
            All-map {P = λ k. ¬ HoldsWord query k}
              {Q = λ k. has_infix (upper query) (codes k) ≡ false} forbidden_keywords capitals
              (λ k r g.
                (not-has_infix_iff (upper query) (codes k)).1
                  (λ held. g ((Holds-upper query k r).0 held)))
              h),
      )

-- A request is let through exactly when its type begins with neither "exec." nor "system.", the url of
-- an "http.request" begins, letter for letter, with neither "file://" nor "ftp://", and the query of an
-- "sql.query" holds no forbidden word anywhere, also inside of another word, each of its letters as a
-- capital or a small one.
pub validate_sandbox_request_iff :
    (request : StepRequest) → (validate_sandbox_request request ≡ value tt) ↔ IsSafe request
unfolding validate_sandbox_request
validate_sandbox_request_iff request =
    let (system, system_back) = runs_system_iff request in
    let (file, file_back) = opens_file_iff request in
    let (query, query_back) = destroys_iff request in
    (
      λ h.
          let s = system (ground arith) in
          record {
            no_exec = s.0;
            no_system = s.1;
            no_file = file (ground arith);
            no_keyword = query (ground arith);
          },
      λ v.
          rw (system_back (v.no_exec, v.no_system), file_back v.no_file, query_back v.no_keyword)
            refl,
    )
