-- ===== src/Mirror/Session/Keeps.antt =====
-- `copy` keeps to the protocol, whatever the packages outside answer.
use golang_fb_mirror.Base.{
  ℕ, Option, ◌≡◌, refl, sym, ap, ◌∙◌, subst, true, false, List, [], ◌∷◌, ◌++◌, Result, ok, err,
  panic, out_of_fuel, no_capabilities, none, some, if◌then◌else◌, Bool-cases, inl, inr,
}
use golang_fb_mirror.Base.Text.{Str}
use golang_fb_mirror.Base.Action.{Action, is_ok, call, resume, resume_assoc}
use golang_fb_mirror.Base.Action.Logs.{
  Adds, Logs, Quiet, Logs-Quiet, Logs-call, Logs-ask, append_nil,
}
use mathlib.Core.List.{append_assoc}
use golang_fb_mirror.Mirror.{Outside, CopyOptions, Plan, prepare, given}
use golang_fb_mirror.Mirror.Reexec.{
  Process, reexec_if_necessary_for_images, maybe_reexec, is_storage, has_all, needed_capabilities,
}
use golang_fb_mirror.Mirror.Copy.{
  Event, opened, closed, copying, writing, Registry, attempt, save_digest, copy_with, with_close,
  close_with, get_policy_context, policy_of, copy, as_write_error, as_policy_error, warn_if_used,
}
use golang_fb_mirror.Mirror.Session.{
  State, Tries, last, again, Attempt, not_copied, copied, no_digest, written, not_written, Attempts,
  final, retried, Body, unprepared, tried, Closing, Session, turned_away, no_context, ended,
}

module _ (out : Outside) where
  Tries-Adds :
      (plan : Plan out) (file : Str) (op : Action (State out) (Unit {0}))
      → Logs (Attempt out plan file) op
      → (s : State out) (x : Result (Unit {0}) × State out) → Tries out op s x
      → Adds (Attempts out plan file) s x
  Tries-Adds plan file op h s x last = let (t, e, p) = h s in (t, e, final p)
  Tries-Adds plan file op h s x (again {e} {w} f rest) =
      let (t, q, p) = h s in
      let (t', q', p') =
        Tries-Adds plan file op h (record { world = w; trace = (op s).1.trace }) x rest in
      (
        t ++ t',
        q' ∙ ap (λ u. u ++ t') q ∙ append_assoc s.trace t t',
        retried (subst (λ r. Attempt out plan file r t) f p) p',
      )

  module _ (os : Process out.World) (reg : Registry out) where
    Closing-close_with :
        (r : Result (Unit {0})) (c : Result (Unit {0}))
        → Closing out r (is_ok c) (close_with out os reg r c)
    unfolding close_with
    Closing-close_with r (ok u) = refl
    Closing-close_with (ok a) (err e) = tt
    Closing-close_with (err e') (err e) = tt
    Closing-close_with panic (err e) = tt
    Closing-close_with out_of_fuel (err e) = tt
    Closing-close_with (ok a) panic = tt
    Closing-close_with (err e') panic = tt
    Closing-close_with panic panic = tt
    Closing-close_with out_of_fuel panic = tt
    Closing-close_with (ok a) out_of_fuel = tt
    Closing-close_with (err e') out_of_fuel = tt
    Closing-close_with panic out_of_fuel = tt
    Closing-close_with out_of_fuel out_of_fuel = tt

    -- The two branches of `save_digest`.
    saved-Attempt :
        (plan : Plan out) (file bytes : Str)
        → given file ≡ true
        → Logs
            (λ r t. Attempt out plan file r (copying plan true ∷ t))
            (λ s.
              resume
                (out.digest bytes, s)
                (λ d.
                  call
                    (λ w.
                      let (r, w') = out.write_file file d w in (as_write_error out os reg r, w'))
                    (writing file d)))
    saved-Attempt plan file bytes g =
        Logs-ask (λ r t. Attempt out plan file r (copying plan true ∷ t)) (λ s. out.digest bytes)
          (λ d.
            call (λ w. let (r, w') = out.write_file file d w in (as_write_error out os reg r, w'))
              (writing file d))
          (λ r f. no_digest f) (λ s d e. write-Attempt d s (out.write_file file d s.world))
      where
        write-Attempt :
            (d : Str) (s : State out) (x : Result (Unit {0}) × out.World)
            → Adds
                (λ r t. Attempt out plan file r (copying plan true ∷ t))
                s
                (
                  as_write_error out os reg x.0,
                  record {
                    world = x.1;
                    trace = s.trace ++ writing file d (is_ok (as_write_error out os reg x.0)) ∷ [];
                  },
                )
        write-Attempt d s (ok u, w) = (writing file d true ∷ [], refl, written g)
        write-Attempt d s (err e, w) = (writing file d false ∷ [], refl, not_written tt)
        write-Attempt d s (panic, w) = (writing file d false ∷ [], refl, not_written tt)
        write-Attempt d s (out_of_fuel, w) = (writing file d false ∷ [], refl, not_written tt)

    save_digest-Attempt :
        (plan : Plan out) (file bytes : Str)
        → Logs
            (λ r t. Attempt out plan file r (copying plan true ∷ t))
            (save_digest out os reg file bytes)
    unfolding save_digest
    save_digest-Attempt plan file bytes s = elim (Bool-cases (given file)) [
      | inl g ↦ rw g (saved-Attempt plan file bytes g s)
      | inr g ↦ rw g ([], append_nil s.trace, copied g)
    ]

    attempt-Attempt :
        (plan : Plan out) (file : Str) (pc : out.PolicyContext)
        → Logs (Attempt out plan file) (attempt out os reg pc plan file)
    unfolding attempt
    attempt-Attempt plan file pc =
        Logs-call (Attempt out plan file) (reg.copy_image pc plan) (copying plan)
          (save_digest out os reg file) (λ r f. not_copied f) (save_digest-Attempt plan file)

    module _
        (tries : (deadline : Option ℕ) (retries : ℕ) (op : Action (State out) (Unit {0}))
            (s : State out)
          → Tries out op s (reg.if_necessary deadline retries op s)) where
      copy_with-Body :
          (src dest : Str) (o : CopyOptions) (pc : out.PolicyContext)
          → Logs (Body out src dest o) (copy_with out os reg src dest o pc)
      unfolding copy_with
      copy_with-Body src dest o pc =
          Logs-ask (Body out src dest o) (λ s. prepare out s.world src dest o)
            (λ plan.
              reg.if_necessary plan.deadline o.max_retry (attempt out os reg pc plan o.digest_file))
            (λ r f. unprepared f)
            (λ s plan e.
              let op = attempt out os reg pc plan o.digest_file in
              let (t, q, p) =
                Tries-Adds plan o.digest_file op (attempt-Attempt plan o.digest_file pc) s
                  (reg.if_necessary plan.deadline o.max_retry op s)
                  (tries plan.deadline o.max_retry op s) in
              (t, q, tried s.world plan e p))

      with_close-Session :
          (src dest : Str) (o : CopyOptions) (pc : out.PolicyContext)
          → Logs
              (λ r t. Session out src dest o r (opened true ∷ t))
              (with_close out os reg pc (copy_with out os reg src dest o pc))
      unfolding with_close
      with_close-Session src dest o pc s =
          let (t, q, p) = copy_with-Body src dest o pc s in
          let x = copy_with out os reg src dest o pc s in
          let c = out.destroy pc x.1.world in
          (
            t ++ closed (is_ok c.0) ∷ [],
            ap (λ u. u ++ closed (is_ok c.0) ∷ []) q
                ∙ append_assoc s.trace t (closed (is_ok c.0) ∷ []),
            ended x.0 (is_ok c.0) p (Closing-close_with x.0 c.0),
          )

      get_policy_context-Session :
          (src dest : Str) (o : CopyOptions)
          → Logs (Session out src dest o) (λ s.
            resume
              (get_policy_context out os reg o.global s)
              (λ pc. with_close out os reg pc (copy_with out os reg src dest o pc)))
      unfolding get_policy_context
      get_policy_context-Session src dest o s =
          let see : State out → Result out.Policy =
            λ s'. as_policy_error out os reg (policy_of out os reg o.global s'.world) in
          let make : out.Policy → out.World → Result out.PolicyContext × out.World = λ p w. (
            as_policy_error out os reg (out.new_policy_context p w).0,
            (out.new_policy_context p w).1,
          ) in
          let rest : out.PolicyContext → Action (State out) (Unit {0}) =
            λ pc. with_close out os reg pc (copy_with out os reg src dest o pc) in
          subst (Adds (Session out src dest o) s)
            (sym (resume_assoc (see s, s) (λ p. call (make p) opened) rest))
            (Logs-ask (Session out src dest o) see (λ p s'. resume (call (make p) opened s') rest)
              (λ r f. turned_away f)
              (λ s' p e.
                Logs-call (Session out src dest o) (make p) opened rest (λ r f. no_context f)
                  (with_close-Session src dest o) s')
              s)

      maybe_reexec-Quiet : Quiet (maybe_reexec {E = Event out} os)
      unfolding maybe_reexec
      maybe_reexec-Quiet s =
          elim (os.effective s.world)
            as (λ o.
              (elim o as (λ _. Result (Unit {0}) × State out) [
                | none ↦ (err no_capabilities, s)
                | some get ↦ (
                  ok tt,
                  record s {
                    world = if has_all get needed_capabilities then s.world else os.unshare s.world;
                  },
                )
              ]).1.trace
              ≡ s.trace) [ none ↦ refl | some get ↦ refl ]

      reexec-Quiet :
          (names : List Str) → Quiet (reexec_if_necessary_for_images {E = Event out} os names)
      unfolding reexec_if_necessary_for_images maybe_reexec
      reexec-Quiet [] s = refl
      reexec-Quiet (name ∷ names) s =
          elim (is_storage (os.transport_name name))
            as (λ b.
              (if b
                then maybe_reexec {E = Event out} os s
                else reexec_if_necessary_for_images os names s).1.trace
              ≡ s.trace) [ true ↦ maybe_reexec-Quiet s | false ↦ reexec-Quiet names s ]

      -- Whatever the packages outside answer, `copy` keeps to the protocol: without a policy
      -- context it fails and copies nothing; with one, it checks the options before it copies,
      -- each attempt copies what the options say, the result is that of the last attempt, which for
      -- a nil result has copied the image and written the digest if one was asked for; and the
      -- policy context is closed once, at the end of every path, where a failure to close it is an
      -- error.
      pub copy-Session :
          (src dest : Str) (o : CopyOptions)
          → Logs (Session out src dest o) (copy out os reg src dest o)
      unfolding copy
      copy-Session src dest o =
          Logs-Quiet (Session out src dest o)
            (λ s. (warn_if_used out os reg o.deprecated_tls_verify, s)) _ (λ s. refl)
            (λ r f. turned_away f)
            (λ a.
              Logs-Quiet (Session out src dest o)
                (reexec_if_necessary_for_images os (src ∷ dest ∷ [])) _
                (reexec-Quiet (src ∷ dest ∷ [])) (λ r f. turned_away f)
                (λ a'. get_policy_context-Session src dest o))
