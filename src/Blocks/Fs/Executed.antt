-- ===== src/Blocks/Fs/Executed.antt =====
-- The blocks for files as their executors run them, with retries.
use beamline_caf.Base.{ℕ, ◌≡◌, true, false, String, some, lookup, ◌⊎◌}
use beamline_caf.Core.{StepRequest, StepResult, ok, timeout}
use beamline_caf.Flags.{Env, is_complete_timeout_enabled}
use beamline_caf.Executor.{Host}
use beamline_caf.Blocks.{BlockState, get_input_or_default}
use beamline_caf.Blocks.Executed.{host_of}
use beamline_caf.Blocks.Fs.{FileSystem, is_path_allowed, execute_put, execute_get}
use beamline_caf.Blocks.Fs.Files.{KeepsFiles, NeverFails}

-- The executors of the two blocks.
module _ (f : FileSystem) (sleep_for : ℕ → f.World → f.World) (env : Env) where
  abbrev pub put_host : Host
  put_host = host_of f.World f.now sleep_for (execute_put f env)

  abbrev pub get_host : Host
  get_host = host_of f.World f.now sleep_for (execute_get f env)

module _ (f : FileSystem) (k : KeepsFiles f) (whole : NeverFails f k)
    (sleep_for : ℕ → f.World → f.World) (env : Env)
    (off : is_complete_timeout_enabled env ≡ false) where
  open k use {content_of}

  -- A success leaves the file behind.
  abbrev Stored : StepRequest → StepResult → BlockState × f.World → Type 0
  Stored put r w =
      r.status ≡ ok
      → (is_path_allowed (get_input_or_default put "path" "") ≡ true)
        × (content_of w.1 (get_input_or_default put "path" "")
            ≡ some (get_input_or_default put "content" ""))

  -- What a read returns of a file that holds the content.
  abbrev Found : String → StepResult → Type 0
  Found content r =
      (r.status ≡ timeout) ⊎ ((r.status ≡ ok) × (lookup "content" r.outputs ≡ some content))

  module _ (get : StepRequest) (path content : String)
      (asked : lookup "path" get.inputs ≡ some path) (allowed : is_path_allowed path ≡ true) where
    abbrev Holds : BlockState × f.World → Type 0
    Holds w = content_of w.1 path ≡ some content
