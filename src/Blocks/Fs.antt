-- ===== src/Blocks/Fs.antt =====
-- processor/src/blocks/fs_block.cpp: the blocks that write and read a file.
pub mod Counts
pub mod Paths
pub mod Files
pub mod RoundTrip
pub mod Executed
use beamline_caf.Base.{
  ℕ, ◌-◌, ℤ, pos, ltb_ℤ, Bool, true, false, ◌&&◌, ◌||◌, not, List, [], ◌∷◌, String, ◌=ˢ◌, ◌+ˢ◌,
  Dict, insert, lookup, or_else, any, find_is_zero, contains, to_string, int_to_string, byte_length,
  Option, none, some, if◌then◌else◌, is_zero,
}
use beamline_caf.Core.{
  BlockContext, ResultMetadata, StepRequest, StepResult, ErrorCode, success, io,
  metadata_from_context,
}
use beamline_caf.Flags.{Env, is_complete_timeout_enabled}
use beamline_caf.Timeouts.{get_fs_timeout_ms}
use beamline_caf.Blocks.{
  BlockState, new_block, record_success, validate_required_inputs, get_input_or_default, Attempt,
  done, thrown, M, ◌>>=◌, ◌>>◌, pure, throw, Outcome, fail,
}

-- The clocks, `std::filesystem` and the file streams. `read_file` gives `none` for a file that does
-- not open, and `write_file` gives `false`. `wait_for` says whether the operation that has been
-- started asynchronously finished in the given time.
pub record FileSystem : Type 1 where
  pub World : Type 0
  pub now : World → ℕ × World
  pub wall_clock : World → ℕ × World
  pub exists : String → M World Bool
  pub create_parent_directories : String → M World (Unit {0})
  pub write_file : String → String → World → Bool × World
  pub read_file : String → M World (Option String)
  pub last_write_time : String → M World ℕ
  pub wait_for : ℤ → World → Bool × World

abbrev pub allowed_prefixes : List String
allowed_prefixes = "/tmp/beamline/" ∷ "/var/lib/beamline/data/" ∷ "./data/" ∷ []

unfoldable pub is_path_allowed : String → Bool
is_path_allowed path = any (find_is_zero path) allowed_prefixes

unfoldable pub new_fs_block : BlockState
new_fs_block = new_block "fs.blob_put" io

unfoldable pub new_fs_get_block : BlockState
new_fs_get_block = new_block "fs.blob_get" io

-- The time limit of an operation: the flag's, or the request's.
abbrev pub limit_of : Env → String → StepRequest → ℤ
limit_of env operation req =
    let fs_timeout_ms : ℤ = get_fs_timeout_ms env operation in
    if is_zero fs_timeout_ms then req.timeout_ms else fs_timeout_ms

-- The code of a failed write: a text about permissions tells them apart.
abbrev pub write_error_code : String → ErrorCode
write_error_code error_msg =
    if contains error_msg "permission" || contains error_msg "Permission"
    then ErrorCode.permission_denied
    else ErrorCode.execution_failed

abbrev pub read_error_code : String → ErrorCode
read_error_code error_msg =
    if contains error_msg "not found" || contains error_msg "Not found"
    then ErrorCode.resource_unavailable
    else ErrorCode.execution_failed

module _ (f : FileSystem) (env : Env) where
  open f use {
    World, now, wall_clock, exists, create_parent_directories, write_file, read_file,
    last_write_time, wait_for,
  }

  -- An operation under the time limit. An operation that takes too long is reported as an error
  -- and runs to its end all the same: the future that `std::async` returns waits for it when it is
  -- destroyed.
  unfoldable pub limited : {A : Type 0} → String → ℤ → M World A → M World A
  limited what fs_timeout_ms operation w =
      let (r, w1) = operation w in
      let (in_time, w2) = wait_for fs_timeout_ms w1 in
      if is_complete_timeout_enabled env && ltb_ℤ (pos 0) fs_timeout_ms
      then if in_time then (r, w2) else (
        thrown (
            "FS "
            +ˢ what
            +ˢ " operation timeout: exceeded "
            +ˢ int_to_string fs_timeout_ms
            +ˢ "ms"),
        w2,
      )
      else (r, w1)

  abbrev pub opened_for_writing : String → Bool × World → Attempt (Unit {0}) × World
  opened_for_writing path (true, w) = (done tt, w)
  opened_for_writing path (false, w) = (thrown ("Failed to open file for writing: " +ˢ path), w)

  -- The directory is made, the file is opened and the content is written.
  unfoldable pub write_steps : String → String → M World (Unit {0})
  write_steps path content =
      create_parent_directories path >> (λ w. opened_for_writing path (write_file path content w))

  abbrev pub when_absent : String → Bool → M World (Unit {0})
  when_absent path true = throw ("File already exists and overwrite is false: " +ˢ path)
  when_absent path false = pure tt

  -- The checks before the write.
  unfoldable pub write_checks : String → Bool → M World (Unit {0})
  write_checks path overwrite =
      if not (is_path_allowed path)
      then throw ("Path not allowed: " +ˢ path)
      else if overwrite
      then pure tt
      else exists path >>= when_absent path

  -- After the write: the outputs and the success.
  unfoldable pub written : String → String → ResultMetadata → ℕ → BlockState → World → Outcome World
  written path content metadata start_time s w =
      let (end_time, w1) = now w in
      let latency_ms : ℕ = end_time - start_time in
      let (created, w2) = wall_clock w1 in
      let outputs : Dict =
        insert "created" (to_string created)
          (insert "size" (to_string (byte_length content)) (insert "path" path [])) in
      (
        success metadata outputs (pos latency_ms),
        record_success latency_ms (pos 0) (pos (byte_length content)) s,
        w2,
      )

  abbrev pub write_result :
      String → String → ResultMetadata → ℕ → BlockState → Attempt (Unit {0}) × World → Outcome World
  write_result path content metadata start_time s (done _, w) =
      written path content metadata start_time s w
  write_result path content metadata start_time s (thrown what, w) =
      let error_msg : String = "File write error: " +ˢ what in
      fail now (write_error_code error_msg) error_msg metadata start_time s w

  -- `FsBlockExecutor::execute_impl`.
  unfoldable pub execute_put : StepRequest → BlockContext → BlockState → World → Outcome World
  execute_put req ctx s w =
      let (start_time, w1) = now w in
      let metadata : ResultMetadata = metadata_from_context ctx in
      let path : String = get_input_or_default req "path" "" in
      let content : String = get_input_or_default req "content" "" in
      let overwrite : Bool = get_input_or_default req "overwrite" "" =ˢ "true" in
      if not (validate_required_inputs req ("path" ∷ "content" ∷ []))
      then fail now ErrorCode.missing_required_field "Missing required inputs: path, content"
          metadata start_time s w1
      else write_result path content metadata start_time s (
          (write_checks path overwrite
              >> limited "write" (limit_of env "write" req) (write_steps path content))
            w1)

  abbrev pub opened_for_reading : String → Option String → M World String
  opened_for_reading path none = throw ("Failed to open file for reading: " +ˢ path)
  opened_for_reading path (some content) = pure content

  abbrev pub read_existing : String → Bool → M World String
  read_existing path true = read_file path >>= opened_for_reading path
  read_existing path false = throw ("File not found: " +ˢ path)

  unfoldable pub read_steps : String → M World String
  read_steps path = exists path >>= read_existing path

  unfoldable pub read_checks : String → M World (Unit {0})
  read_checks path =
      if not (is_path_allowed path) then throw ("Path not allowed: " +ˢ path) else pure tt

  -- The content, with the latency that is taken before the time of the last write is read.
  unfoldable pub read_all : StepRequest → String → ℕ → M World (String × ℕ × ℕ)
  read_all req path start_time = do
    read_checks path
    content ← limited "read" (limit_of env "read" req) (read_steps path)
    end_time ← (λ w. let (t, w') = now w in (done t, w'))
    modified ← last_write_time path
    pure (content, end_time - start_time, modified)

  abbrev pub read_result :
      String → ResultMetadata → ℕ → BlockState → Attempt (String × ℕ × ℕ) × World → Outcome World
  read_result path metadata start_time s (done (content, latency_ms, modified), w) =
      let outputs : Dict = insert "modified" (to_string modified) (
        insert "size" (to_string (byte_length content))
          (insert "content" content (insert "path" path []))) in
      (
        success metadata outputs (pos latency_ms),
        record_success latency_ms (pos 0) (pos (byte_length content)) s,
        w,
      )
  read_result path metadata start_time s (thrown what, w) =
      let error_msg : String = "File read error: " +ˢ what in
      fail now (read_error_code error_msg) error_msg metadata start_time s w

  -- `FsGetBlockExecutor::execute_impl`.
  unfoldable pub execute_get : StepRequest → BlockContext → BlockState → World → Outcome World
  execute_get req ctx s w =
      let (start_time, w1) = now w in
      let metadata : ResultMetadata = metadata_from_context ctx in
      let path : String = get_input_or_default req "path" "" in
      if not (validate_required_inputs req ("path" ∷ []))
      then fail now ErrorCode.missing_required_field "Missing required input: path" metadata
          start_time s w1
      else read_result path metadata start_time s (read_all req path start_time w1)
