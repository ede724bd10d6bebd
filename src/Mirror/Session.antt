-- ===== src/Mirror/Session.antt =====
-- A copy seen from outside: the protocol of the calls that `copy` makes.
pub mod Keeps
use golang_fb_mirror.Base.{
  ℕ, Option, ◌≡◌, refl, sym, ap, ◌∙◌, subst, Bool, true, false, List, [], ◌∷◌, ◌++◌, Result, ok,
  err, panic, out_of_fuel, Error, no_capabilities, none, some, if◌then◌else◌, Bool-cases, inl, inr,
}
use golang_fb_mirror.Base.Text.{Str}
use golang_fb_mirror.Base.Action.{Action, Traced, is_ok, call, resume, resume_assoc}
use golang_fb_mirror.Base.Action.Logs.{
  Failed, Adds, Logs, Quiet, Logs-Quiet, Logs-call, Logs-ask, Logs-last, Logs-lift, append_nil,
}
use mathlib.Core.List.{append_assoc}
use golang_fb_mirror.Mirror.{Outside, CopyOptions, Plan, prepare, given}
use golang_fb_mirror.Mirror.Reexec.{
  Process, reexec_if_necessary_for_images, maybe_reexec, is_storage, has_all, needed_capabilities,
}
use golang_fb_mirror.Mirror.Copy.{
  Event, opened, closed, copying, writing, Registry, Do, attempt, save_digest, copy_with,
  with_close, close_with, get_policy_context, policy_of, copy, as_write_error, as_policy_error,
  warn_if_used,
}

module _ (out : Outside) where
  abbrev pub State : Type 0
  State = Traced out.World (Event out)

  -- `retry.IfNecessary` runs the operation, and again after an error, as often as it likes; it
  -- returns what the last run returns. Between two runs the world may change.
  pub data Tries (op : Action State (Unit {0})) : State → Result (Unit {0}) × State → Type 0 where
    last : {s : State} → Tries op s (op s)
    again :
        {s : State} {e : Error} {w : out.World} {x : Result (Unit {0}) × State}
        → (op s).0 ≡ err e
        → Tries op (record { world = w; trace = (op s).1.trace }) x
        → Tries op s x

  -- One attempt: the copy, and the file with the digest if one was asked for.
  pub data Attempt (plan : Plan out) (file : Str)
      : Result (Unit {0}) → List (Event out) → Type 0 where
    not_copied : {r : Result (Unit {0})} → Failed r → Attempt plan file r (copying plan false ∷ [])
    copied : given file ≡ false → Attempt plan file (ok tt) (copying plan true ∷ [])
    no_digest : {r : Result (Unit {0})} → Failed r → Attempt plan file r (copying plan true ∷ [])
    written :
        {digest : Str}
        → given file ≡ true
        → Attempt plan file (ok tt) (copying plan true ∷ writing file digest true ∷ [])
    not_written :
        {r : Result (Unit {0})} {digest : Str}
        → Failed r
        → Attempt plan file r (copying plan true ∷ writing file digest false ∷ [])

  -- Failed attempts, and the last one, whose result counts.
  pub data Attempts (plan : Plan out) (file : Str)
      : Result (Unit {0}) → List (Event out) → Type 0 where
    final :
        {r : Result (Unit {0})} {t : List (Event out)}
        → Attempt plan file r t
        → Attempts plan file r t
    retried :
        {e : Error} {r : Result (Unit {0})} {t t' : List (Event out)}
        → Attempt plan file (err e) t
        → Attempts plan file r t'
        → Attempts plan file r (t ++ t')

  -- The options are checked before the first attempt, and each attempt copies what they say.
  pub data Body (src dest : Str) (o : CopyOptions)
      : Result (Unit {0}) → List (Event out) → Type 0 where
    unprepared : {r : Result (Unit {0})} → Failed r → Body src dest o r []
    tried :
        (w : out.World) (plan : Plan out) {r : Result (Unit {0})} {t : List (Event out)}
        → prepare out w src dest o ≡ ok plan
        → Attempts plan o.digest_file r t
        → Body src dest o r t

  -- A failure to close is an error of the whole.
  abbrev pub Closing : Result (Unit {0}) → Bool → Result (Unit {0}) → Type 0
  Closing r true r' = r' ≡ r
  Closing r false r' = Failed r'

  -- The policy context is opened at most once, and if it is, it is closed at the very end, on
  -- every path.
  pub data Session (src dest : Str) (o : CopyOptions)
      : Result (Unit {0}) → List (Event out) → Type 0 where
    turned_away : {r : Result (Unit {0})} → Failed r → Session src dest o r []
    no_context : {r : Result (Unit {0})} → Failed r → Session src dest o r (opened false ∷ [])
    ended :
        (r : Result (Unit {0})) (closes : Bool) {r' : Result (Unit {0})} {t : List (Event out)}
        → Body src dest o r t
        → Closing r closes r'
        → Session src dest o r' (opened true ∷ (t ++ closed closes ∷ []))
