-- ===== src/Cli/Run/Command.antt =====
-- How the command goes on from a destination that `Validate` accepts.
use golang_fb_mirror.Base.{
  ◌≡◌, refl, ap, sym, ◌∙◌, ◌⊎◌, inl, inr, true, false, Option, none, some, [], ◌++◌, ◌>>=◌,
  no_config, bad_destination, ◌==◌, List_eq, ℕ_eq, Result, ok, err, Bool-cases, bind-eq-ok, arith,
  Error,
}
use golang_fb_mirror.Base.Text.{Str, codes, contains}
use golang_fb_mirror.Api.{Mirror}
use golang_fb_mirror.Collect.Files.{Mode, mirror_to_disk, disk_to_mirror}
use golang_fb_mirror.Cli.{
  is_local, validate_destination, validate_config, validate_protocol, complete_mode,
}
use golang_fb_mirror.Cli.Destination.{complete_mode-returns}
use golang_fb_mirror.Cli.Run.{Executor, Parts, State, complete, mirror_command, run, checked}

-- The branches of `Validate` behind a path that is not empty.
validate-docker :
    (path dest : Str) (config : Result Mirror)
    → (path == []) ≡ false
    → contains dest (codes "docker://") ≡ true
    → validate_destination path config dest
      ≡ (config >>= λ m. validate_config m >>= λ _. validate_protocol dest)
unfolding validate_destination
validate-docker path dest config p d = rw (validate_destination, p, d) refl

validate-other :
    (path dest : Str) (config : Result Mirror)
    → (path == []) ≡ false
    → contains dest (codes "docker://") ≡ false
    → is_local dest ≡ false
    → validate_destination path config dest ≡ err bad_destination
unfolding validate_destination validate_protocol
validate-other path dest config p d l = rw (validate_destination, p, validate_protocol, l, d) refl

validate-empty :
    (path dest : Str) (config : Result Mirror)
    → (path == []) ≡ true
    → validate_destination path config dest ≡ err no_config
unfolding validate_destination
validate-empty path dest config p = rw (validate_destination, p) refl

-- What an accepted destination that is not local has been checked for.
remote-config :
    (path dest : Str) (config : Result Mirror)
    → is_local dest ≡ false
    → validate_destination path config dest ≡ ok tt
    → (m : Mirror) × (config ≡ ok m) × (validate_config m ≡ ok tt)
remote-config path dest config l h = elim (Bool-cases (path == [])) [
  | inl p ↦ absurd (ground (arith, sym (validate-empty path dest config p) ∙ h))
  | inr p ↦ elim (Bool-cases (contains dest (codes "docker://"))) [
    | inr d ↦ absurd (ground (arith, sym (validate-other path dest config p d l) ∙ h))
    | inl d ↦
        let (m, e, h1) =
          bind-eq-ok config (λ m. validate_config m >>= λ _. validate_protocol dest)
            (sym (validate-docker path dest config p d) ∙ h) in
        let (u, e', h2) = bind-eq-ok (validate_config m) (λ _. validate_protocol dest) h1 in
        (m, e, e')
  ]
]

checked-ok :
    (parts : Parts) (x : Mirror × Option Error) (m : Mirror)
    → checked parts x ≡ ok m
    → x ≡ (m, none)
checked-ok parts (m', none) m h = let e : m' ≡ m = ground arith in ap (λ z. (z, none)) e
checked-ok parts (m', some e) m h = absurd (ground (arith, h))

complete-ok :
    (parts : Parts) (path dest : Str) (w : parts.World) (mode : Mode) (dir : Str)
    → complete_mode dest ≡ ok (mode, dir)
    → complete parts path dest w
      ≡ ok (record {
        config = (parts.read_config w path).0;
        config_path = path;
        mode = mode;
        destination = dest;
        dir = dir;
      })
unfolding complete
complete-ok parts path dest w mode dir h = rw (complete, h) refl

command-run :
    (parts : Parts) (path dest : Str) (s : State parts) (ex : Executor)
    → validate_destination path (checked parts (parts.read_config s.world path)) dest ≡ ok tt
    → complete parts path dest s.world ≡ ok ex
    → mirror_command parts path dest s ≡ run parts ex s
unfolding mirror_command
command-run parts path dest s ex h c = rw (mirror_command, h, c) refl

-- If `Validate` accepts the destination, `Complete` does not panic, and the command goes on with
-- `Run`, on what `ReadConfig` gave: for a destination with `oci://` or `dir://` in mirrorToDisk
-- below the working directory, whether the configuration was read or not; for any other in
-- diskToMirror, and then the configuration was read without an error, and its release, its catalogs
-- and its additional images pass the checks of `Validate`.
pub mirror_command-runs :
    (parts : Parts) (path dest : Str) (s : State parts)
    → validate_destination path (checked parts (parts.read_config s.world path)) dest ≡ ok tt
    → (ex : Executor) × (mirror_command parts path dest s ≡ run parts ex s)
      × (ex.config ≡ (parts.read_config s.world path).0)
      × (((is_local dest ≡ true)
            × (ex.mode ≡ mirror_to_disk)
            × ((part : Str) × (ex.dir ≡ codes "working-dir/" ++ part)))
          ⊎ ((is_local dest ≡ false)
              × (ex.mode ≡ disk_to_mirror)
              × (ex.dir ≡ codes "working-dir")
              × ((m : Mirror) × (parts.read_config s.world path ≡ (m, none))
                  × (validate_config m ≡ ok tt))))
mirror_command-runs parts path dest s h = elim (complete_mode-returns dest) [
  | inl (l, (part, _, e)) ↦
      let c = complete-ok parts path dest s.world mirror_to_disk (codes "working-dir/" ++ part) e in
      (_, command-run parts path dest s _ h c, refl, inl (l, refl, (part, refl)))
  | inr (l, e) ↦
      let c = complete-ok parts path dest s.world disk_to_mirror (codes "working-dir") e in
      let (m, g, v) = remote-config path dest _ l h in
      (
        _,
        command-run parts path dest s _ h c,
        refl,
        inr (l, refl, refl, (m, checked-ok parts (parts.read_config s.world path) m g, v)),
      )
]
