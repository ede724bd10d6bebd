-- ===== src/Mirror/Copy.antt =====
-- `copy`, `delete` and `Run` of the mirror (pkg/mirror/mirror.go), with the calls outside that
-- matter to a copy recorded as events.
use golang_fb_mirror.Base.{
  ℕ, Bool, Option, none, some, [], ◌∷◌, ◌==◌, List_eq, ℕ_eq, if◌then◌else◌, Result, ok, err, panic,
  out_of_fuel, bad_trust_policy, bad_source_name, digest_not_written,
}
use golang_fb_mirror.Base.Text.{Str, codes}
use golang_fb_mirror.Base.Action.{Action, Traced, ◌>>=◌, lift, ask, call}
use golang_fb_mirror.Options.System.{GlobalOptions, SystemContext, new_system_context}
use golang_fb_mirror.Mirror.{
  Outside, CopyOptions, Plan, prepare, note_close_failure, command_timeout_context, or_error, given,
}
use golang_fb_mirror.Mirror.Reexec.{Process, reexec_if_necessary_for_images}

-- The policy context has been made, and destroyed; an image was copied or deleted, and a file
-- written; each with whether the call succeeded.
pub data Event (out : Outside) : Type 0 where
  opened closed : Bool → Event out
  copying : Plan out → Bool → Event out
  writing : Str → Str → Bool → Event out
  deleting : out.Ref → SystemContext → Bool → Event out

-- `CopyImage`, the deletion of an image, and `retry.IfNecessary` with the deadline and the number
-- of retries.
pub record Registry (out : Outside) : Type 1 where
  pub copy_image : out.PolicyContext → Plan out → out.World → Result Str × out.World
  pub delete_image : Option ℕ → out.Ref → SystemContext → out.World → Result (Unit {0}) × out.World
  pub if_necessary :
      Option ℕ
      → ℕ
      → Action (Traced out.World (Event out)) (Unit {0})
      → Action (Traced out.World (Event out)) (Unit {0})

module _ (out : Outside) (os : Process out.World) (reg : Registry out) where
  abbrev pub Do {ℓ} : Type ℓ → Type ℓ
  Do A = Action (Traced out.World (Event out)) A

  -- `opts.DeprecatedTLSVerify.WarnIfUsed(…)` only logs, but reads through the pointer.
  abbrev pub warn_if_used : Option (Option Bool) → Result (Unit {0})
  warn_if_used none = panic
  warn_if_used (some o) = ok tt

  -- The policy that `GetPolicyContext` chooses.
  unfoldable pub policy_of : GlobalOptions → out.World → Result out.Policy
  policy_of g w =
      if g.insecure_policy
      then ok out.accept_anything
      else if g.policy_path == []
      then out.default_policy w
      else out.policy_from_file w g.policy_path

  abbrev pub as_policy_error {ℓ} : {A : Type ℓ} → Result A → Result A
  as_policy_error (err e) = err bad_trust_policy
  as_policy_error r = r

  -- `GetPolicyContext` with the error of `copy`
  unfoldable pub get_policy_context : GlobalOptions → Do out.PolicyContext
  unfolding policy_of
  get_policy_context g = do
    policy ← ask (λ (s : Traced out.World (Event out)). as_policy_error (policy_of g s.world))
    call (λ w. let (r, w') = out.new_policy_context policy w in (as_policy_error r, w')) opened

  -- What the deferred function makes of the result of the body and of `Destroy`.
  unfoldable pub close_with {ℓ} : {A : Type ℓ} → Result A → Result (Unit {0}) → Result A
  unfolding note_close_failure
  close_with r (ok u) = r
  close_with (ok a) (err close) = err (note_close_failure none close)
  close_with (err e) (err close) = err (note_close_failure (some e) close)
  close_with panic (err close) = panic
  close_with out_of_fuel (err close) = out_of_fuel
  close_with r panic = panic
  close_with r out_of_fuel = out_of_fuel

  -- The body of `copy` under its `defer`
  unfoldable pub with_close : out.PolicyContext → Do (Unit {0}) → Do (Unit {0})
  unfolding close_with
  with_close pc body s =
      let (r, s') = body s in
      let (c, s'') = call (out.destroy pc) closed s' in (close_with r c, s'')

  abbrev pub as_write_error : Result (Unit {0}) → Result (Unit {0})
  as_write_error (err e) = err digest_not_written
  as_write_error r = r

  -- The digest of the copied manifest goes to a file that was asked for.
  unfoldable pub save_digest : Str → Str → Do (Unit {0})
  save_digest file bytes =
      if given file
      then (lift (out.digest bytes) >>= λ d.
          call (λ w. let (r, w') = out.write_file file d w in (as_write_error r, w'))
            (writing file d))
      else lift (ok tt)

  -- One attempt to copy
  unfoldable pub attempt : out.PolicyContext → Plan out → Str → Do (Unit {0})
  unfolding save_digest
  attempt pc plan file = do
    bytes ← call (reg.copy_image pc plan) (copying plan)
    save_digest file bytes

  -- `copy` with its policy context
  unfoldable pub copy_with : Str → Str → CopyOptions → out.PolicyContext → Do (Unit {0})
  unfolding attempt prepare
  copy_with src dest o pc = do
    plan ← ask (λ (s : Traced out.World (Event out)). prepare out s.world src dest o)
    reg.if_necessary plan.deadline o.max_retry (attempt pc plan o.digest_file)

  -- `copy`
  unfoldable pub copy : Str → Str → CopyOptions → Do (Unit {0})
  unfolding copy_with with_close get_policy_context reexec_if_necessary_for_images
  copy src dest o = do
    _ ← lift (warn_if_used o.deprecated_tls_verify)
    _ ← reexec_if_necessary_for_images os (src ∷ dest ∷ [])
    pc ← get_policy_context o.global
    with_close pc (copy_with src dest o pc)

  -- `delete`
  unfoldable pub delete : Str → CopyOptions → Do (Unit {0})
  unfolding reexec_if_necessary_for_images new_system_context command_timeout_context
  delete image o = do
    _ ← reexec_if_necessary_for_images os (image ∷ [])
    ref ← ask (λ (s : Traced out.World (Event out)).
        or_error (out.parse_image_name s.world image) bad_source_name)
    sys ← lift (new_system_context o.dest_image)
    let deadline = command_timeout_context o.global
    reg.if_necessary deadline o.max_retry
        (call (reg.delete_image deadline ref sys) (deleting ref sys))

  -- `Run`
  unfoldable pub run : Str → Str → Str → CopyOptions → Do (Unit {0})
  unfolding copy delete
  run src dest mode o = if mode == codes "delete" then delete src o else copy src dest o
