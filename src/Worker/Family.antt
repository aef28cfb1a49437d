-- ===== src/Worker/Family.antt =====
-- What the worker has one of for each class of resources.
use beamline_caf.Base.{ℕ, ◌+◌, ◌<◌, ◌≡◌, refl, ◌⊎◌, inl, inr, Bool, true, false, arith}
use beamline_caf.Core.{ResourceClass, cpu, gpu, io}

unfoldable pub with_class {ℓ} :
    {A : Type ℓ} → ResourceClass → A → (ResourceClass → A) → ResourceClass → A
with_class cpu u w cpu = u
with_class gpu u w gpu = u
with_class io u w io = u
with_class _ u w other = w other

unfoldable pub is_class : ResourceClass → ResourceClass → Bool
is_class cpu cpu = true
is_class gpu gpu = true
is_class io io = true
is_class _ _ = false

abbrev pub total : (ResourceClass → ℕ) → ℕ
total f = f cpu + f gpu + f io

pub is_class-eq : (a b : ResourceClass) → is_class a b ≡ true → a ≡ b
unfolding is_class
is_class-eq cpu cpu e = refl
is_class-eq gpu gpu e = refl
is_class-eq io io e = refl
is_class-eq cpu gpu e = cc
is_class-eq cpu io e = cc
is_class-eq gpu cpu e = cc
is_class-eq gpu io e = cc
is_class-eq io cpu e = cc
is_class-eq io gpu e = cc

-- What holds of the one that moved and of all before holds of all after.
pub with_class_ind {ℓ κ} :
    {A : Type ℓ} (P : ResourceClass → A → Type κ) (class : ResourceClass) (u : A)
    (w : ResourceClass → A)
    → P class u
    → ((other : ResourceClass) → P other (w other))
    → (other : ResourceClass) → P other (with_class class u w other)
unfolding with_class
with_class_ind P cpu u w new old cpu = new
with_class_ind P cpu u w new old gpu = old gpu
with_class_ind P cpu u w new old io = old io
with_class_ind P gpu u w new old cpu = old cpu
with_class_ind P gpu u w new old gpu = new
with_class_ind P gpu u w new old io = old io
with_class_ind P io u w new old cpu = old cpu
with_class_ind P io u w new old gpu = old gpu
with_class_ind P io u w new old io = new

-- A measure that one lowers goes down in total.
pub total-with_class {ℓ} :
    {A : Type ℓ} (measure : A → ℕ) (class : ResourceClass) (u : A) (w : ResourceClass → A)
    → measure u < measure (w class)
    → total (λ c. measure (with_class class u w c)) < total (λ c. measure (w c))
unfolding with_class
total-with_class measure cpu u w lt = omega arith
total-with_class measure gpu u w lt = omega arith
total-with_class measure io u w lt = omega arith

-- One of the three, or all.
pub one_or_all {ℓ κ} :
    {P : ResourceClass → Type ℓ} {Q : ResourceClass → Type κ}
    → ((class : ResourceClass) → P class ⊎ Q class)
    → ((class : ResourceClass) × P class) ⊎ ((class : ResourceClass) → Q class)
one_or_all {P} {Q} f = elim (f cpu) [
  | inl p ↦ inl (cpu, p)
  | inr a ↦ elim (f gpu) [
    | inl p ↦ inl (gpu, p)
    | inr b ↦ elim (f io) [ inl p ↦ inl (io, p) | inr c ↦ inr (every a b c) ]
  ]
]
  where
    every : Q cpu → Q gpu → Q io → (class : ResourceClass) → Q class
    every a b c cpu = a
    every a b c gpu = b
    every a b c io = c
