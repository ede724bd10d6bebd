-- ===== src/Options.antt =====
-- Options of a copy that the program reads itself (pkg/mirror/options.go and mirror.go).
pub mod Credentials
pub mod System
use golang_fb_mirror.Base.{
  ℕ, Bool, true, false, Option, none, some, List, [], ◌∷◌, ◌++◌, ◌==◌, List_eq, ℕ_eq, if◌then◌else◌,
  Result, ok, err, empty_credentials, empty_username, unknown_format, unknown_multi_arch,
}
use golang_fb_mirror.Base.Text.{Str, codes}

-- What stands in front of the first byte `c` and behind it: strings.SplitN(s, c, 2).
unfoldable pub cut_first : ℕ → Str → Option (Str × Str)
cut_first c [] = none
cut_first c (b ∷ s) = elim (b == c) [
  | true ↦ some ([], s)
  | false ↦ elim (cut_first c s) [ none ↦ none | some (before, after) ↦ some (b ∷ before, after) ]
]

-- `parseCreds`
unfoldable pub parse_creds : Str → Result (Str × Str)
unfolding cut_first
parse_creds creds = if creds == [] then err empty_credentials else elim (cut_first 58 creds) [
  | none ↦ ok (creds, [])
  | some (username, password) ↦
      if username == [] then err empty_username else ok (username, password)
]

-- `ParseManifestFormat`: the media types are constants of other packages, named by constructors.
pub data MediaType : Type 0 where
  oci_manifest docker_schema1_signed docker_schema2 : MediaType

unfoldable pub parse_manifest_format : Str → Result MediaType
parse_manifest_format format =
    if format == codes "oci"
    then ok oci_manifest
    else if format == codes "v2s1"
    then ok docker_schema1_signed
    else if format == codes "v2s2"
    then ok docker_schema2
    else err unknown_format

-- `copy.ImageListSelection`
pub data Selection : Type 0 where
  system_image all_images specific_images : Selection

-- `parseMultiArch`
unfoldable pub parse_multi_arch : Str → Result Selection
parse_multi_arch multi_arch =
    if multi_arch == codes "system"
    then ok system_image
    else if multi_arch == codes "all"
    then ok all_images
    else if multi_arch == codes "index-only"
    then ok specific_images
    else err unknown_multi_arch
