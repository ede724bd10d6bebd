-- ===== src/Cli.antt =====
-- The checks of the command line and the mode that it selects (pkg/cli/executor.go).
pub mod Destination
pub mod Run
pub mod Program
use golang_fb_mirror.Base.{
  Bool, true, false, not, ◌||◌, List, [], ◌∷◌, ◌++◌, ◌==◌, List_eq, ℕ_eq, if◌then◌else◌, Result, ok,
  err, ◌>>=◌, index, no_config, no_release_field, no_dir_prefix, bad_destination,
}
use golang_fb_mirror.Base.Text.{Str, codes, contains, split}
use golang_fb_mirror.Api.{Image, Operator, Mirror}
use golang_fb_mirror.Batch.{CopyImage}
use golang_fb_mirror.Collect.Files.{Mode, mirror_to_disk, disk_to_mirror}

-- Whether the destination has the prefix `oci://` or `dir://` somewhere.
unfoldable pub is_local : Str → Bool
unfolding contains
is_local dest = contains dest (codes "oci://") || contains dest (codes "dir://")

-- The mode and the working directory that `Complete` sets.
unfoldable pub complete_mode : Str → Result (Mode × Str)
unfolding is_local split index
complete_mode dest =
    if is_local dest
    then (index (split dest (codes "://")) 1 >>= λ part.
        ok (mirror_to_disk, codes "working-dir/" ++ part))
    else ok (disk_to_mirror, codes "working-dir")

unfoldable pub have_dirs : List Str → Bool
unfolding contains
have_dirs [] = true
have_dirs (s ∷ ss) = let rest = have_dirs ss in if contains s (codes "dir://") then rest else false

abbrev pub catalogs_of : List Operator → List Str
catalogs_of [] = []
catalogs_of (o ∷ os) = o.catalog ∷ catalogs_of os

abbrev pub names_of : List Image → List Str
names_of [] = []
names_of (i ∷ is) = i.name ∷ names_of is

-- What `Validate` asks of the configuration for a destination `docker://`.
unfoldable pub validate_config : Mirror → Result (Unit {0})
unfolding have_dirs
validate_config m =
    if m.platform.release == []
    then err no_release_field
    else if not (have_dirs (catalogs_of m.operators))
    then err no_dir_prefix
    else if not (have_dirs (names_of m.additional_images))
    then err no_dir_prefix
    else ok tt

unfoldable pub validate_protocol : Str → Result (Unit {0})
unfolding is_local contains
validate_protocol dest =
    if is_local dest || contains dest (codes "docker://") then ok tt else err bad_destination

-- `Validate`; `config` is what `ReadConfig` returns for the path, with its validation.
unfoldable pub validate_destination : Str → Result Mirror → Str → Result (Unit {0})
unfolding validate_config validate_protocol contains
validate_destination config_path config dest =
    if config_path == []
    then err no_config
    else if contains dest (codes "docker://")
    then (config >>= λ m. validate_config m >>= λ _. validate_protocol dest)
    else validate_protocol dest

-- `mergeImages`
unfoldable pub merge_images : List CopyImage → List CopyImage → List CopyImage
merge_images base more = base ++ more
