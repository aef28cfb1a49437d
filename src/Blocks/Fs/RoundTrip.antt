-- ===== src/Blocks/Fs/RoundTrip.antt =====
-- A file that one block has written and the other block reads.
use beamline_caf.Base.{
  ℕ, ◌-◌, ◌≡◌, refl, sym, ap, ◌∙◌, subst, inl, inr, pos, true, false, ◌&&◌, String, lookup, or_else,
  insert, ltb_ℤ, is_some, some, Bool-cases,
}
use beamline_caf.Core.{BlockContext, StepRequest, ok, success}
use beamline_caf.Flags.{Env, is_complete_timeout_enabled}
use beamline_caf.Blocks.{
  BlockState, validate_required_inputs, get_input_or_default, done, M, ◌>>=◌, pure, run-bind,
}
use beamline_caf.Blocks.Fs.{
  FileSystem, is_path_allowed, limited, limit_of, execute_put, read_steps, read_checks, read_all,
  read_existing, opened_for_reading, execute_get,
}
use beamline_caf.Blocks.Fs.Paths.{execute_put_denied}
use beamline_caf.Blocks.Fs.Files.{
  KeepsFiles, NeverFails, execute_put-stores, limited-free, error≠ok,
}

module _ (f : FileSystem) (k : KeepsFiles f) (env : Env)
    (no_limit : is_complete_timeout_enabled env ≡ false) where
  open f use {World, now, exists, read_file, last_write_time}
  open k use {content_of}

  read_steps-finds :
      (path : String) (w : World) {content : String}
      → content_of w path ≡ some content
      → (v : World) × (read_steps f env path w ≡ (done content, v)) × (content_of v ≡ content_of w)
  unfolding read_steps
  read_steps-finds path w {content} stored =
      let (u, found, same) = k.exists-tells path w in
      let (v, read, same') = k.read_file-finds path u in
      let there : is_some (content_of w path) ≡ true = ap is_some stored in
      let held : content_of u path ≡ some content = ap (λ c. c path) same ∙ stored in
      (
        v,
        run-bind (exists path) (read_existing f env path) w found
            ∙ ap (λ b. read_existing f env path b u) there
            ∙ run-bind (read_file path) (opened_for_reading f env path) u read
            ∙ ap (λ o. opened_for_reading f env path o v) held,
        same' ∙ same,
      )

  abbrev read_limited : StepRequest → String → M World String
  read_limited req path = limited f env "read" (limit_of env "read" req) (read_steps f env path)

  abbrev timed : String → ℕ → String → M World (String × ℕ × ℕ)
  timed path start_time content = (λ w. (done (now w).0, (now w).1)) >>= λ end_time.
      last_write_time path >>= λ modified. pure (content, end_time - start_time, modified)

  read_all-finds :
      (req : StepRequest) (path : String) (start_time : ℕ) (w : World) {content : String}
      → is_path_allowed path ≡ true
      → content_of w path ≡ some content
      → (latency_ms modified : ℕ) × (v : World) × (read_all f env req path start_time w
          ≡ (done (content, latency_ms, modified), v))
  unfolding read_all
  read_all-finds req path start_time w {content} allowed stored =
      let (u, read, same) = read_steps-finds path w stored in
      let t = (now u).0 in
      let u' = (now u).1 in
      let checked : read_checks f env path w ≡ (done tt, w) =
        unfold read_checks in rw allowed refl in
      let free : read_limited req path w ≡ (done content, u) =
        limited-free f k env "read" (limit_of env "read" req) (read_steps f env path) w
          (ap (λ b. b && ltb_ℤ (pos 0) (limit_of env "read" req)) no_limit)
        ∙ read in
      let held : content_of u' path ≡ some content =
        ap (λ c. c path) (k.now-keeps u ∙ same) ∙ stored in
      let (modified, v, told) = k.last_write_time-tells path u' held in
      (
        t - start_time,
        modified,
        v,
        run-bind (read_checks f env path) (λ _. read_limited req path >>= timed path start_time) w
              checked
            ∙ run-bind (read_limited req path) (timed path start_time) w free
            ∙ run-bind (last_write_time path) (λ m. pure (content, t - start_time, m)) u' told,
      )

  -- A file that holds a content is read back as it is: the read of an allowed path without a time
  -- limit of its own succeeds, and its outputs carry the content.
  pub execute_get-finds :
      (req : StepRequest) (ctx : BlockContext) (s : BlockState) (w : World) {path content : String}
      → lookup "path" req.inputs ≡ some path
      → is_path_allowed path ≡ true
      → content_of w path ≡ some content
      → ((execute_get f env req ctx s w).0.status ≡ ok)
        × (lookup "content" (execute_get f env req ctx s w).0.outputs ≡ some content)
  unfolding execute_get success validate_required_inputs lookup insert
  execute_get-finds req ctx s w {path} {content} asked allowed stored =
      let kept : content_of (now w).1 path ≡ some content =
        ap (λ c. c path) (k.now-keeps w) ∙ stored in
      let (_, _, v, read) = read_all-finds req path (now w).0 (now w).1 allowed kept in
      rw (asked, read) (refl, refl)

  pub execute_put-allowed :
      (put : StepRequest) (ctx : BlockContext) (s : BlockState) (w : World)
      → (execute_put f env put ctx s w).0.status ≡ ok
      → is_path_allowed (get_input_or_default put "path" "") ≡ true
  execute_put-allowed put ctx s w wrote =
      elim (Bool-cases (is_path_allowed (get_input_or_default put "path" ""))) [
        | inl e ↦ e
        | inr e ↦
            elim (error≠ok f k env (sym (execute_put_denied f env put ctx s w e).0 ∙ wrote)) [ ]
      ]

  -- What a write has stored is what a read of the same path returns: after a write that reports
  -- success, where no write or close of an open file fails and operations have no time limit of their own, a read of that path succeeds and its
  -- outputs carry the content that was written.
  pub execute_get-execute_put :
      (put get : StepRequest) (ctx ctx' : BlockContext) (s s' : BlockState) (w : World)
      {path : String}
      → NeverFails f k
      → (execute_put f env put ctx s w).0.status ≡ ok
      → lookup "path" put.inputs ≡ some path
      → lookup "path" get.inputs ≡ some path
      → ((execute_get f env get ctx' s' (execute_put f env put ctx s w).2).0.status ≡ ok)
        × (lookup "content"
              (execute_get f env get ctx' s' (execute_put f env put ctx s w).2).0.outputs
            ≡ some (get_input_or_default put "content" ""))
  execute_get-execute_put put get ctx ctx' s s' w {path} whole wrote written asked =
      execute_get-finds get ctx' s' (execute_put f env put ctx s w).2 asked
        (subst (λ p. is_path_allowed p ≡ true) there (execute_put-allowed put ctx s w wrote))
        (subst
          (λ p.
            content_of (execute_put f env put ctx s w).2 p
            ≡ some (get_input_or_default put "content" ""))
          there (execute_put-stores f k env put ctx s whole w wrote))
    where
      there : get_input_or_default put "path" "" ≡ path
      there = ap (λ o. or_else o "") written
