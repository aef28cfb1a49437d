-- ===== src/Tests/Blocks.antt =====
-- The blocks on a small file system and a small network.
use mathlib.Core.Bool.{false≢true}
use beamline_caf.Base.{
  sym, ap, ◌∙◌, inl, inr, ◌≡◌, refl, ℕ, pos, Bool, true, false, [], ◌∷◌, String, Dict, insert,
  lookup, lookup-insert, eq_refl, is_some, some, find_is_zero, has_prefix,
}
use beamline_caf.Core.{empty_context, StepResult, StepRequest, error}
use beamline_caf.Blocks.{BlockState, get_input_or_default, done}
use beamline_caf.Blocks.Fs.{execute_get, FileSystem, is_path_allowed, new_fs_block, execute_put}
use beamline_caf.Blocks.Fs.Paths.{is_path_allowed_iff, execute-refuses}
use beamline_caf.Blocks.Fs.Files.{KeepsFiles}
use beamline_caf.Tests.Data.{no_flags, context, put_request}

-- Files in a list, on a disk that is in time or always late.
abbrev pub disk : Bool → FileSystem
disk in_time = record {
  World = Dict;
  now = λ w. (0, w);
  wall_clock = λ w. (0, w);
  exists = λ path w. (done (is_some (lookup path w)), w);
  create_parent_directories = λ path w. (done tt, w);
  write_file = λ path content w. (true, insert path content w);
  read_file = λ path w. (done (lookup path w), w);
  last_write_time = λ path w. (done 0, w);
  wait_for = λ t w. (in_time, w);
}

own_key : (path content : String) (w : Dict) → lookup path (insert path content w) ≡ some content
own_key path content w = rw (lookup-insert path path content w, eq_refl path)

disk-KeepsFiles : (in_time : Bool) → KeepsFiles (disk in_time)
disk-KeepsFiles in_time = record {
  content_of = λ w path. lookup path w;
  now-keeps = λ w. refl;
  wall_clock-keeps = λ w. refl;
  wait_for-keeps = λ t w. refl;
  completes = λ path content w. true;
  write_file-stores = λ path content w e whole. own_key path content w;
  exists-tells = λ path w. (w, refl, refl);
  read_file-finds = λ path w. (w, refl, refl);
  last_write_time-tells = λ path w e. (0, w, refl);
}

abbrev password_request : StepRequest
password_request = record put_request { inputs = ("path", "/etc/passwd") ∷ ("content", "x") ∷ [] }

password_denied : is_path_allowed "/etc/passwd" ≡ false
unfolding is_path_allowed find_is_zero has_prefix
password_denied = refl

password_path : get_input_or_default password_request "path" "" ≡ "/etc/passwd"
unfolding lookup
password_path = refl

password_refused : is_path_allowed (get_input_or_default password_request "path" "") ≡ true → ⊥
password_refused h = false≢true (sym password_denied ∙ ap is_path_allowed (sym password_path) ∙ h)

execute-refuses_example :
    ((execute_put (disk true) no_flags password_request context new_fs_block []).0.status ≡ error)
    × ((execute_put (disk true) no_flags password_request context new_fs_block []).2 ≡ [])
    × ((execute_get (disk true) no_flags password_request context new_fs_block []).0.status ≡ error)
    × ((execute_get (disk true) no_flags password_request context new_fs_block []).2 ≡ [])
execute-refuses_example =
    execute-refuses (disk true) no_flags password_request context new_fs_block []
      (λ u.
        password_refused
          ((is_path_allowed_iff (get_input_or_default password_request "path" "")).1 (inl u)))
      (λ u.
        password_refused
          ((is_path_allowed_iff (get_input_or_default password_request "path" "")).1 (inr (inl u))))
      (λ u.
        password_refused
          ((is_path_allowed_iff (get_input_or_default password_request "path" "")).1 (inr (inr u))))

abbrev pub sleepless : ℕ → Dict → Dict
sleepless d w = w

abbrev put_start : BlockState × Dict
put_start = (new_fs_block, [])

abbrev put_result : StepResult
put_result = record (execute_put (disk true) no_flags put_request empty_context new_fs_block []).0 {
  latency_ms = pos 0;
  retries_used = pos 0;
}

abbrev put_end : BlockState × Dict
put_end =
    let (_, s, w) = execute_put (disk true) no_flags put_request empty_context new_fs_block [] in
    (s, w)
