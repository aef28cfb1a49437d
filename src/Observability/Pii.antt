-- ===== src/Observability/Pii.antt =====
-- processor/src/observability.cpp: the filter that keeps secrets out of the logs.
use beamline_caf.Base.{
  ℕ, Bool, ◌||◌, List, [], ◌∷◌, map, any, String, codes, to_lower, same_codes, has_infix,
  if◌then◌else◌,
}

-- A JSON value; numbers, booleans and null are held as they print.
mutual
  pub data Json : Type 0 where
    string : String → Json
    scalar : String → Json
    array : Items → Json
    object : Fields → Json

  pub data Items : Type 0 where
    no_items : Items
    item : Json → Items → Items

  pub data Fields : Type 0 where
    no_fields : Fields
    field : String → Json → Fields → Fields

abbrev pub pii_fields : List String
pii_fields =
    "password" ∷ "api_key" ∷ "secret" ∷ "token" ∷ "access_token" ∷ "refresh_token" ∷ "authorization"
    ∷ "credit_card" ∷ "ssn" ∷ "email" ∷ "phone" ∷ []

-- The name in lower case, as code points.
abbrev pub lower : String → List ℕ
lower field_name = map to_lower (codes field_name)

abbrev pub matches : List ℕ → String → Bool
matches lower_field pii_field =
    same_codes lower_field (codes pii_field) || has_infix lower_field (codes pii_field)

unfoldable pub is_pii_field : String → Bool
is_pii_field field_name = any (matches (lower field_name)) pii_fields

abbrev pub redacted : Json
redacted = string "[REDACTED]"

-- `filter_pii_recursive`: a field with a secret name is overwritten, objects and arrays are entered.
unfoldable mutual
  pub filter_pii : Json → Json
  filter_pii (string s) = string s
  filter_pii (scalar s) = scalar s
  filter_pii (array xs) = array (filter_items xs)
  filter_pii (object fs) = object (filter_fields fs)

  pub filter_items : Items → Items
  filter_items no_items = no_items
  filter_items (item x xs) = item (filter_pii x) (filter_items xs)

  pub filter_fields : Fields → Fields
  filter_fields no_fields = no_fields
  filter_fields (field key v fs) =
      field key (if is_pii_field key then redacted else filter_pii v) (filter_fields fs)
