-- ===== src/Flags.antt =====
-- processor/include/beamline/worker/feature_flags.hpp. The process environment is an argument.
use beamline_caf.Base.{
  map, Bool, false, ◌||◌, String, Option, none, some, codes, to_lower, same_codes,
}

-- `std::getenv`: `none` for a variable that is not set.
abbrev pub Env : Type 0
Env = String → Option String

-- Whether a variable's value, in lower case, is one of the three that stand for true.
unfoldable pub is_truthy : String → Bool
unfolding to_lower same_codes
is_truthy value =
    let str_value = map to_lower (codes value) in
    same_codes str_value (codes "true")
    || same_codes str_value (codes "1")
    || same_codes str_value (codes "yes")

unfoldable pub get_env_bool : Env → String → Bool → Bool
get_env_bool env env_var default_value = elim (env env_var) [
  | none ↦ default_value
  | some value ↦ is_truthy value
]

unfoldable pub is_advanced_retry_enabled : Env → Bool
is_advanced_retry_enabled env = get_env_bool env "CP2_ADVANCED_RETRY_ENABLED" false

unfoldable pub is_complete_timeout_enabled : Env → Bool
is_complete_timeout_enabled env = get_env_bool env "CP2_COMPLETE_TIMEOUT_ENABLED" false

unfoldable pub is_queue_management_enabled : Env → Bool
is_queue_management_enabled env = get_env_bool env "CP2_QUEUE_MANAGEMENT_ENABLED" false

unfoldable pub is_observability_metrics_enabled : Env → Bool
is_observability_metrics_enabled env = get_env_bool env "CP2_OBSERVABILITY_METRICS_ENABLED" false
