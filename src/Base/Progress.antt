-- ===== src/Base/Progress.antt =====
-- What every schedule of a system leads to.
use Prim.Native.Nat.{ℕ, zero, suc, ◌<◌}
use mathlib.Core.Logic.{◌⊎◌, inl, inr}
use native.Mathlib.Omega.{arith}

module _ {ℓ κ ι} {State : Type ℓ} (Moves : State → State → Type κ) (P : State → Type ι) where
  -- `P` comes true on every schedule: it holds, or some move is possible and all moves lead to it.
  pub data Inevitably : State → Type (ℓ ⊔ κ ⊔ ι) where
    now : {s : State} → P s → Inevitably s
    later : {s t : State} → Moves s t → ((u : State) → Moves s u → Inevitably u) → Inevitably s

  -- It does, where each move lowers a measure and a state without moves has `P`.
  pub measured {μ} :
      (Keeps : State → Type μ) (measure : State → ℕ)
      → ((s : State) → Keeps s → ((t : State) × Moves s t) ⊎ P s)
      → ((s t : State) → Keeps s → Moves s t → Keeps t × (measure t < measure s))
      → (s : State) → Keeps s
      → Inevitably s
  measured Keeps measure go falls s k = within (suc (measure s)) s (omega arith) k
    where
      within : (fuel : ℕ) (s : State) → measure s < fuel → Keeps s → Inevitably s
      within zero s lt k = absurd (omega arith)
      within (suc fuel) s lt k = elim (go s k) [
        | inr done ↦ now done
        | inl (t, m) ↦
            later m (λ u x. within fuel u (omega (arith, (falls s u k x).1)) (falls s u k x).0)
      ]

pub Inevitably-map {ℓ κ ι μ} :
    {State : Type ℓ} {Moves : State → State → Type κ} {P : State → Type ι} {Q : State → Type μ}
    → ((s : State) → P s → Q s)
    → (s : State) → Inevitably Moves P s
    → Inevitably Moves Q s
Inevitably-map f s (now p) = now (f s p)
Inevitably-map f s (later m go) = later m (λ u x. Inevitably-map f u (go u x))
