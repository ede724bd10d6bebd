-- ===== src/Mirror/Reexec.antt =====
-- Whether the program starts again in a user namespace (pkg/mirror/unshare_linux.go).
use golang_fb_mirror.Base.{
  Bool, true, false, Option, none, some, List, [], ◌∷◌, ◌==◌, List_eq, ℕ_eq, if◌then◌else◌, ok, err,
  no_capabilities,
}
use golang_fb_mirror.Base.Text.{Str, codes}
use golang_fb_mirror.Base.Action.{Action, Traced}

-- `neededCapabilities`
pub data Capability : Type 0 where
  chown dac_override fowner fsetid mknod setfcap : Capability

abbrev pub needed_capabilities : List Capability
needed_capabilities = chown ∷ dac_override ∷ fowner ∷ fsetid ∷ mknod ∷ setfcap ∷ []

-- The package `capability` (`none` for an error of `NewPid2`), the names of transports, and
-- `unshare.MaybeReexecUsingUserNamespace`.
pub record Process (World : Type 0) : Type 0 where
  pub effective : World → Option (Capability → Bool)
  pub transport_name : Str → Option Str
  pub unshare : World → World

unfoldable pub has_all : (Capability → Bool) → List Capability → Bool
has_all get [] = true
has_all get (c ∷ cs) = let rest = has_all get cs in if get c then rest else false

abbrev pub is_storage : Option Str → Bool
is_storage none = false
is_storage (some name) = name == codes "containers-storage"

module _ {W E : Type 0} (os : Process W) where
  -- `maybeReexec`
  unfoldable pub maybe_reexec : Action (Traced W E) (Unit {0})
  unfolding has_all
  maybe_reexec s = elim (os.effective s.world) [
    | none ↦ (err no_capabilities, s)
    | some get ↦ (
      ok tt,
      record s { world = if has_all get needed_capabilities then s.world else os.unshare s.world },
    )
  ]

  -- `ReexecIfNecessaryForImages`: the first image of the container storage decides.
  unfoldable pub reexec_if_necessary_for_images : List Str → Action (Traced W E) (Unit {0})
  unfolding maybe_reexec
  reexec_if_necessary_for_images [] s = (ok tt, s)
  reexec_if_necessary_for_images (name ∷ names) s =
      let rest = reexec_if_necessary_for_images names s in
      if is_storage (os.transport_name name) then maybe_reexec s else rest
