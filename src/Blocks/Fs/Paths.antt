-- ===== src/Blocks/Fs/Paths.antt =====
-- Which paths the file blocks touch.
use beamline_caf.Base.{
  ℕ, ◌≡◌, refl, ◌⊎◌, inl, inr, ◌↔◌, Bool, true, false, List, [], ◌∷◌, ◌++◌, String, ◌=ˢ◌, ◌+ˢ◌,
  codes, find_is_zero, find_is_zero_iff, arith, Bool-cases,
}
use beamline_caf.Core.{BlockContext, StepRequest, error, error_result}
use beamline_caf.Flags.{Env}
use beamline_caf.Blocks.{
  fail, BlockState, validate_required_inputs, get_input_or_default, thrown, throw,
}
use beamline_caf.Blocks.Fs.{
  FileSystem, is_path_allowed, write_checks, read_checks, read_all, execute_put, execute_get,
}

-- The path begins with the given directory.
abbrev pub IsUnder : String → String → Type 0
IsUnder path directory = (r : List ℕ) × (codes path ≡ codes directory ++ r)

-- A path is allowed exactly when its text begins with one of the three directories.
pub is_path_allowed_iff :
    (path : String)
    → (is_path_allowed path ≡ true) ↔ (
        IsUnder path "/tmp/beamline/"
        ⊎ IsUnder path "/var/lib/beamline/data/"
        ⊎ IsUnder path "./data/")
is_path_allowed_iff path = (there, back)
  where
    open_up : (is_path_allowed path ≡ true) ↔ (
        (find_is_zero path "/tmp/beamline/" ≡ true)
        ⊎ (find_is_zero path "/var/lib/beamline/data/" ≡ true)
        ⊎ (find_is_zero path "./data/" ≡ true))
    open_up = unfold is_path_allowed in ground arith

    there :
        is_path_allowed path ≡ true
        → IsUnder path "/tmp/beamline/"
          ⊎ IsUnder path "/var/lib/beamline/data/"
          ⊎ IsUnder path "./data/"
    there h = elim (open_up.0 h) [
      | inl e ↦ inl ((find_is_zero_iff path "/tmp/beamline/").0 e)
      | inr (inl e) ↦ inr (inl ((find_is_zero_iff path "/var/lib/beamline/data/").0 e))
      | inr (inr e) ↦ inr (inr ((find_is_zero_iff path "./data/").0 e))
    ]

    back :
        IsUnder path "/tmp/beamline/"
          ⊎ IsUnder path "/var/lib/beamline/data/"
          ⊎ IsUnder path "./data/"
        → is_path_allowed path ≡ true
    back (inl u) = open_up.1 (inl ((find_is_zero_iff path "/tmp/beamline/").1 u))
    back (inr (inl u)) =
        open_up.1 (inr (inl ((find_is_zero_iff path "/var/lib/beamline/data/").1 u)))
    back (inr (inr u)) = open_up.1 (inr (inr ((find_is_zero_iff path "./data/").1 u)))

module _ (f : FileSystem) (env : Env) (req : StepRequest) (ctx : BlockContext)
    (s : BlockState) where
  open f use {World, now}

  -- Two readings of the clock, and nothing else.
  abbrev pub only_clock : World → World
  only_clock w = (now (now w).1).1

  write_checks_denied :
      (path : String) (overwrite : Bool)
      → is_path_allowed path ≡ false
      → write_checks f env path overwrite ≡ throw ("Path not allowed: " +ˢ path)
  unfolding write_checks
  write_checks_denied path overwrite denied = rw denied

  read_all_denied :
      (path : String) (start_time : ℕ) (w : World)
      → is_path_allowed path ≡ false
      → read_all f env req path start_time w ≡ (thrown ("Path not allowed: " +ˢ path), w)
  unfolding read_all read_checks
  read_all_denied path start_time w denied = rw denied

  -- A path that is not allowed is refused before the file system is asked for anything: the write
  -- ends with an error, and the world has seen two readings of the clock.
  pub execute_put_denied :
      (w : World)
      → is_path_allowed (get_input_or_default req "path" "") ≡ false
      → ((execute_put f env req ctx s w).0.status ≡ error)
        × ((execute_put f env req ctx s w).2 ≡ only_clock w)
  unfolding execute_put fail error_result
  execute_put_denied w denied =
      elim (Bool-cases (validate_required_inputs req ("path" ∷ "content" ∷ []))) [
        | inl e ↦
            rw
              (
                e,
                write_checks_denied (get_input_or_default req "path" "")
                    (get_input_or_default req "overwrite" "" =ˢ "true") denied,
              )
              (refl, refl)
        | inr e ↦ rw e (refl, refl)
      ]

  -- So does the read.
  pub execute_get_denied :
      (w : World)
      → is_path_allowed (get_input_or_default req "path" "") ≡ false
      → ((execute_get f env req ctx s w).0.status ≡ error)
        × ((execute_get f env req ctx s w).2 ≡ only_clock w)
  unfolding execute_get fail error_result
  execute_get_denied w denied = elim (Bool-cases (validate_required_inputs req ("path" ∷ []))) [
    | inl e ↦
        rw (e, read_all_denied (get_input_or_default req "path" "") (now w).0 (now w).1 denied)
          (refl, refl)
    | inr e ↦ rw e (refl, refl)
  ]

-- A path that begins with none of the three allowed directories is refused by both blocks before the
-- file system is asked for anything: the step ends with an error, and the world has seen two readings
-- of the clock, whatever else the request says.
pub execute-refuses :
    (f : FileSystem) (env : Env) (req : StepRequest) (ctx : BlockContext) (s : BlockState)
    (w : f.World)
    → ¬ IsUnder (get_input_or_default req "path" "") "/tmp/beamline/"
    → ¬ IsUnder (get_input_or_default req "path" "") "/var/lib/beamline/data/"
    → ¬ IsUnder (get_input_or_default req "path" "") "./data/"
    → ((execute_put f env req ctx s w).0.status ≡ error)
      × ((execute_put f env req ctx s w).2 ≡ (f.now (f.now w).1).1)
      × ((execute_get f env req ctx s w).0.status ≡ error)
      × ((execute_get f env req ctx s w).2 ≡ (f.now (f.now w).1).1)
execute-refuses f env req ctx s w no_tmp no_var no_data =
    let (put_error, put_world) = execute_put_denied f env req ctx s w denied in
    let (get_error, get_world) = execute_get_denied f env req ctx s w denied in
    (put_error, put_world, get_error, get_world)
  where
    denied : is_path_allowed (get_input_or_default req "path" "") ≡ false
    denied = elim (Bool-cases (is_path_allowed (get_input_or_default req "path" ""))) [
      | inr e ↦ e
      | inl e ↦ elim ((is_path_allowed_iff (get_input_or_default req "path" "")).0 e) [
        | inl u ↦ absurd (no_tmp u)
        | inr (inl u) ↦ absurd (no_var u)
        | inr (inr u) ↦ absurd (no_data u)
      ]
    ]
