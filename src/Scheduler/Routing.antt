-- ===== src/Scheduler/Routing.antt =====
-- The two routings of a request, by the worker actor and by the scheduler.
use beamline_caf.Base.{
  ◌≡◌, ◌↔◌, ◌⊎◌, inl, inr, Bool, false, ◌||◌, String, some, lookup, arith, find_is_zero,
  Option-cases, eq_iff,
}
use beamline_caf.Core.{StepRequest}
use beamline_caf.Worker.{routed_class}
use beamline_caf.Scheduler.{determine_resource_class}

abbrev pub Names : String → StepRequest → Type 0
Names class request = lookup "class" request.resources ≡ some class

-- The type has one of the prefixes that the scheduler reads.
abbrev pub has_class_prefix : StepRequest → Bool
has_class_prefix request =
    find_is_zero request.type "http."
    || find_is_zero request.type "fs."
    || find_is_zero request.type "ai."
    || find_is_zero request.type "media."

-- The worker actor and the scheduler send a request to pools of the same class exactly when the
-- request names "gpu" or "io", or its type has none of the prefixes "http.", "fs.", "ai.", "media.".
pub routed_class-determine_iff :
    (request : StepRequest)
    → (routed_class request ≡ determine_resource_class request)
      ↔ (Names "gpu" request ⊎ Names "io" request ⊎ (has_class_prefix request ≡ false))
unfolding routed_class determine_resource_class
routed_class-determine_iff request = elim (Option-cases (lookup "class" request.resources)) [
  | inl e ↦ (λ h. ground arith, λ h. ground arith)
  | inr (class, e) ↦ (
    λ h. ground (arith, eq_iff class "gpu", eq_iff class "io"),
    λ h. ground (arith, eq_iff class "gpu", eq_iff class "io"),
  )
]
