-- ===== src/Blocks/Fs/Files.antt =====
-- What the file blocks leave in the files, on a file system that keeps what is written to it.
use beamline_caf.Base.{
  ℕ, ◌≡◌, inl, inr, refl, sym, ap, ◌∙◌, subst, ℤ, pos, ltb_ℤ, Bool, true, false, ◌&&◌, [], ◌∷◌,
  String, ◌=ˢ◌, is_some, int_to_string, ◌+ˢ◌, Option, some, arith, Bool-cases,
}
use beamline_caf.Core.{
  BlockContext, ResultMetadata, StepRequest, ok, error, error_result, metadata_from_context,
  ErrorCode,
}
use beamline_caf.Flags.{Env, is_complete_timeout_enabled}
use beamline_caf.Blocks.{
  fail, BlockState, validate_required_inputs, get_input_or_default, Attempt, done, thrown, M, ◌>>◌,
  bind-done,
}
use beamline_caf.Blocks.Fs.{
  FileSystem, limited, limit_of, opened_for_writing, write_steps, write_checks, write_result,
  written, execute_put,
}

-- A file system that keeps files: what a path holds changes only when it is written, and a reader
-- finds what it holds. `completes` says that the write and the close that follow the opening of the
-- file do not fail, as on a full disk; the block does not ask.
pub record KeepsFiles (f : FileSystem) : Type 0 where
  pub content_of : f.World → String → Option String
  pub now-keeps : (w : f.World) → content_of (f.now w).1 ≡ content_of w
  pub wall_clock-keeps : (w : f.World) → content_of (f.wall_clock w).1 ≡ content_of w
  pub wait_for-keeps : (t : ℤ) (w : f.World) → content_of (f.wait_for t w).1 ≡ content_of w
  pub completes : String → String → f.World → Bool
  pub write_file-stores :
      (path content : String) (w : f.World)
      → (f.write_file path content w).0 ≡ true
      → completes path content w ≡ true
      → content_of (f.write_file path content w).1 path ≡ some content
  pub exists-tells :
      (path : String) (w : f.World)
      → (v : f.World) × (f.exists path w ≡ (done (is_some (content_of w path)), v))
        × (content_of v ≡ content_of w)
  pub read_file-finds :
      (path : String) (w : f.World)
      → (v : f.World) × (f.read_file path w ≡ (done (content_of w path), v))
        × (content_of v ≡ content_of w)
  pub last_write_time-tells :
      (path : String) (w : f.World) {content : String}
      → content_of w path ≡ some content
      → (t : ℕ) × (v : f.World) × (f.last_write_time path w ≡ (done t, v))

-- No write or close of an open file fails.
abbrev pub NeverFails : (f : FileSystem) → KeepsFiles f → Type 0
NeverFails f k = (path content : String) (w : f.World) → k.completes path content w ≡ true

module _ (f : FileSystem) (k : KeepsFiles f) (env : Env) where
  open f use {
    World, now, wall_clock, exists, create_parent_directories, write_file, read_file,
    last_write_time, wait_for,
  }
  open k use {content_of}

  abbrev pub is_limited : ℤ → Bool
  is_limited t = is_complete_timeout_enabled env && ltb_ℤ (pos 0) t

  module _ {A : Type 0} (what : String) (t : ℤ) (operation : M World A) (w : World) where
    abbrev pub after_wait : World
    after_wait = (wait_for t (operation w).1).1

    pub limited-free : is_limited t ≡ false → limited f env what t operation w ≡ operation w
    unfolding limited
    limited-free e = rw e

    limited-in_time :
        is_limited t ≡ true
        → (wait_for t (operation w).1).0 ≡ true
        → limited f env what t operation w ≡ ((operation w).0, after_wait)
    unfolding limited
    limited-in_time e i = rw (e, i)

    pub limited-late :
        is_limited t ≡ true
        → (wait_for t (operation w).1).0 ≡ false
        → limited f env what t operation w ≡ (
          thrown ("FS " +ˢ what +ˢ " operation timeout: exceeded " +ˢ int_to_string t +ˢ "ms"),
          after_wait,
        )
    unfolding limited
    limited-late e i = rw (e, i)

    -- An operation under a limit that returns has returned, and waiting for it changes no file.
    limited-done :
        {a : A} {v : World}
        → limited f env what t operation w ≡ (done a, v)
        → (u : World) × (operation w ≡ (done a, u)) × (content_of v ≡ content_of u)
    limited-done {a} {v} h = elim (Bool-cases (is_limited t)) [
      | inl e ↦ elim (Bool-cases (wait_for t (operation w).1).0) [
        | inl i ↦
            let g : ((operation w).0, after_wait) ≡ (done a, v) = sym (limited-in_time e i) ∙ h in
            (
              (operation w).1,
              pair (operation w) (ap (λ x. x.0) g),
              ap content_of (sym (ap (λ x. x.1) g)) ∙ k.wait_for-keeps t (operation w).1,
            )
        | inr i ↦ late (ap (λ x. x.0) (sym (limited-late e i) ∙ h))
      ]
      | inr e ↦ (v, sym (limited-free e) ∙ h, refl)
    ]
      where
        pair : (x : Attempt A × World) → x.0 ≡ done a → x ≡ (done a, x.1)
        pair (_, u) e = ap (λ y. (y, u)) e

        late : {message : String} {R : Type 0} → thrown message ≡ done a → R
        late h = cc

  opened_for_writing-done :
      NeverFails f k
      → (path content : String) (w : World) {v : World}
      → opened_for_writing f env path (write_file path content w) ≡ (done tt, v)
      → content_of v path ≡ some content
  opened_for_writing-done whole path content w {v} h = split (write_file path content w) refl h
    where
      split :
          (x : Bool × World)
          → write_file path content w ≡ x
          → opened_for_writing f env path x ≡ (done tt, v)
          → content_of v path ≡ some content
      split (true, u) e g =
          subst (λ z. content_of z path ≡ some content)
            (sym (ap (λ x. x.1) (sym g) ∙ ap (λ x. x.1) (sym e)))
            (k.write_file-stores path content w (ap (λ x. x.0) e) (whole path content w))
      split (false, u) e g = ground arith

  pub write_steps-done :
      NeverFails f k
      → (path content : String) (w : World) {v : World}
      → write_steps f env path content w ≡ (done tt, v)
      → content_of v path ≡ some content
  unfolding write_steps
  write_steps-done whole path content w h =
      let (_, u, _, opened) =
        bind-done (create_parent_directories path)
          (λ _. λ w. opened_for_writing f env path (write_file path content w)) w h in
      opened_for_writing-done whole path content u opened

  written-keeps :
      (path content : String) (metadata : ResultMetadata) (start_time : ℕ) (s : BlockState)
      (w : World)
      → content_of (written f env path content metadata start_time s w).2 ≡ content_of w
  unfolding written
  written-keeps path content metadata start_time s w = k.wall_clock-keeps (now w).1 ∙ k.now-keeps w

  pub fail-error :
      (code : _) (message : String) (metadata : ResultMetadata) (start_time : ℕ) (s : BlockState)
      (w : World)
      → (fail now code message metadata start_time s w).0.status ≡ error
  unfolding fail error_result
  fail-error code message metadata start_time s w = refl

  pub error≠ok : ¬ (error ≡ ok)
  error≠ok e = cc

  write_result-ok :
      (path content : String) (metadata : ResultMetadata) (start_time : ℕ) (s : BlockState)
      (x : Attempt (Unit {0}) × World)
      → (write_result f env path content metadata start_time s x).0.status ≡ ok
      → (v : World) × (x ≡ (done tt, v))
        × (content_of (write_result f env path content metadata start_time s x).2 ≡ content_of v)
  write_result-ok path content metadata start_time s (done tt, w) h =
      (w, refl, written-keeps path content metadata start_time s w)
  write_result-ok path content metadata start_time s (thrown what, w) h =
      elim (error≠ok (sym (fail-error _ _ metadata start_time s w) ∙ h)) [ ]

  module _ (req : StepRequest) (ctx : BlockContext) (s : BlockState) where
    abbrev put_path : String
    put_path = get_input_or_default req "path" ""

    abbrev put_content : String
    put_content = get_input_or_default req "content" ""

    abbrev attempt_write : M World (Unit {0})
    attempt_write =
        write_checks f env put_path (get_input_or_default req "overwrite" "" =ˢ "true")
        >> limited f env "write" (limit_of env "write" req) (write_steps f env put_path put_content)

    execute_put-attempt :
        (w : World)
        → (execute_put f env req ctx s w).0.status ≡ ok
        → execute_put f env req ctx s w
          ≡ write_result f env put_path put_content
              (metadata_from_context ctx)
              (now w).0
              s
              (attempt_write (now w).1)
    execute_put-attempt w h =
        elim (Bool-cases (validate_required_inputs req ("path" ∷ "content" ∷ []))) [
          | inl e ↦ unfold execute_put in rw e refl
          | inr e ↦ refused (unfold execute_put in rw e refl)
        ]
      where
        refused :
            execute_put f env req ctx s w
              ≡ fail now ErrorCode.missing_required_field "Missing required inputs: path, content"
                  (metadata_from_context ctx)
                  (now w).0
                  s
                  (now w).1
            → execute_put f env req ctx s w
              ≡ write_result f env put_path put_content
                  (metadata_from_context ctx)
                  (now w).0
                  s
                  (attempt_write (now w).1)
        refused e =
            elim (error≠ok (sym (fail-error _ _ _ _ s _) ∙ ap (λ x. x.0.status) (sym e) ∙ h)) [ ]

    -- Where no write or close of an open file fails, a write that reports success has stored the request's
    -- content under the request's path.
    pub execute_put-stores :
        NeverFails f k
        → (w : World) → (execute_put f env req ctx s w).0.status ≡ ok
        → content_of (execute_put f env req ctx s w).2 put_path ≡ some put_content
    execute_put-stores whole w h =
        let e = execute_put-attempt w h in
        let (v, returned, kept) =
          write_result-ok put_path put_content _ _ s (attempt_write (now w).1)
            (ap (λ x. x.0.status) (sym e) ∙ h) in
        let (_, u, _, written_at) =
          bind-done
            (write_checks f env put_path (get_input_or_default req "overwrite" "" =ˢ "true"))
            (λ _.
              limited f env "write" (limit_of env "write" req)
                (write_steps f env put_path put_content))
            (now w).1 returned in
        let (u', stored, same) =
          limited-done "write" (limit_of env "write" req) (write_steps f env put_path put_content) u
            written_at in
        ap (λ x. content_of x.2 put_path) e
        ∙ ap (λ c. c put_path) (kept ∙ same)
        ∙ write_steps-done whole put_path put_content u stored
