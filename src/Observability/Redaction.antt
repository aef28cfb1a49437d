-- ===== src/Observability/Redaction.antt =====
-- What the filter leaves in a JSON value.
use beamline_caf.Base.{◌≡◌, ◌↔◌, subst, refl, sym, ap, ap₂, true, false, inl, inr, Bool-cases}
use beamline_caf.Observability.Pii.{
  Json, string, scalar, array, object, Items, no_items, item, Fields, no_fields, field,
  is_pii_field, redacted, filter_pii, filter_items, filter_fields,
}

-- Every field with a secret name, at any depth, reads "[REDACTED]".
unfoldable mutual
  pub IsClean : Json → Type 0
  IsClean (string s) = Unit
  IsClean (scalar s) = Unit
  IsClean (array xs) = AreClean xs
  IsClean (object fs) = HasCleanFields fs

  pub AreClean : Items → Type 0
  AreClean no_items = Unit
  AreClean (item x xs) = IsClean x × AreClean xs

  pub HasCleanFields : Fields → Type 0
  HasCleanFields no_fields = Unit
  HasCleanFields (field key v fs) =
      (is_pii_field key ≡ true → v ≡ redacted)
      × (is_pii_field key ≡ false → IsClean v)
      × HasCleanFields fs

mutual
  unfolding IsClean filter_pii

  pub filter_pii-IsClean : (j : Json) → IsClean (filter_pii j)
  filter_pii-IsClean (string s) = tt
  filter_pii-IsClean (scalar s) = tt
  filter_pii-IsClean (array xs) = filter_items-AreClean xs
  filter_pii-IsClean (object fs) = filter_fields-HasCleanFields fs

  filter_items-AreClean : (xs : Items) → AreClean (filter_items xs)
  filter_items-AreClean no_items = tt
  filter_items-AreClean (item x xs) = (filter_pii-IsClean x, filter_items-AreClean xs)

  pub filter_fields-HasCleanFields : (fs : Fields) → HasCleanFields (filter_fields fs)
  filter_fields-HasCleanFields no_fields = tt
  filter_fields-HasCleanFields (field key v fs) = (
    (λ secret. rw secret refl),
    (λ plain. rw plain (filter_pii-IsClean v)),
    filter_fields-HasCleanFields fs,
  )

mutual
  unfolding IsClean filter_pii

  filter_pii-fixes : (j : Json) → IsClean j → filter_pii j ≡ j
  filter_pii-fixes (string s) h = refl
  filter_pii-fixes (scalar s) h = refl
  filter_pii-fixes (array xs) h = ap array (filter_items-fixes xs h)
  filter_pii-fixes (object fs) h = ap object (filter_fields-fixes fs h)

  filter_items-fixes : (xs : Items) → AreClean xs → filter_items xs ≡ xs
  filter_items-fixes no_items h = refl
  filter_items-fixes (item x xs) (hx, hs) =
      ap₂ item (filter_pii-fixes x hx) (filter_items-fixes xs hs)

  filter_fields-fixes : (fs : Fields) → HasCleanFields fs → filter_fields fs ≡ fs
  filter_fields-fixes no_fields h = refl
  filter_fields-fixes (field key v fs) (secret, plain, h) =
      ap₂ (field key)
        (elim (Bool-cases (is_pii_field key)) [
          | inl e ↦ rw e (sym (secret e))
          | inr e ↦ rw e (filter_pii-fixes v (plain e))
        ])
        (filter_fields-fixes fs h)

-- The filter leaves a value as it is exactly when no field with a secret name in it, at any depth,
-- holds anything but "[REDACTED]".
pub filter_pii-fixes_iff : (j : Json) → IsClean j ↔ (filter_pii j ≡ j)
filter_pii-fixes_iff j = (filter_pii-fixes j, λ e. subst IsClean e (filter_pii-IsClean j))
