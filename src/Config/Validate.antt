-- ===== src/Config/Validate.antt =====
-- The checks and the defaults of a configuration (pkg/config/validate.go and defaults.go), and the
-- unique name of a catalog (pkg/api/v1alpha2/types_config.go).

pub mod Unique
use golang_fb_mirror.Base.{
  ℕ, Bool, true, false, ◌&&◌, Option, none, some, List, [], ◌∷◌, ◌++◌, ◌==◌, List_eq, ℕ_eq, ltb,
  length, if◌then◌else◌, Result, Error, ok, err, panic, out_of_fuel, foreign, duplicate_catalog,
  duplicate_channel, invalid_configuration,
}
use golang_fb_mirror.Base.Text.{Str, codes, trim_prefix}
use golang_fb_mirror.Api.{Operator, ReleaseChannel, PlatformConfig, Mirror, is_fbc_oci}

-- The package github.com/openshift/library-go/pkg/image/reference.
pub record References : Type 1 where
  pub Reference : Type 0
  -- reference.Parse
  pub parse : Str → Option Reference
  -- r.Exact()
  pub exact : Reference → Str
  -- assignments to the fields Name, ID and Tag
  pub set_name : Str → Reference → Reference
  pub set_id : Str → Reference → Reference
  pub set_tag : Str → Reference → Reference

-- `seen[name]`
unfoldable pub was_seen : Str → List Str → Bool
was_seen name [] = false
was_seen name (s ∷ seen) = if s == name then true else was_seen name seen

-- `validateReleaseChannels`, with the names that `seen` holds
unfoldable pub check_channels : List Str → List ReleaseChannel → Result (Unit {0})
unfolding was_seen
check_channels seen [] = ok tt
check_channels seen (ch ∷ channels) = elim (was_seen ch.name seen) [
  | true ↦ err duplicate_channel
  | false ↦ check_channels (ch.name ∷ seen) channels
]

-- `completeReleaseArchitectures`; `v1alpha2.DefaultPlatformArchitecture` is `amd64`
unfoldable pub complete : Mirror → Mirror
complete m =
    if ltb 0 (length m.platform.channels) && (length m.platform.architectures == 0)
    then record m { platform = record m.platform { architectures = codes "amd64" ∷ [] } }
    else m

module _ (refs : References) where
  -- `(o Operator) GetUniqueName()`
  unfoldable pub get_unique_name : Operator → Result Str
  unfolding is_fbc_oci trim_prefix
  get_unique_name o =
      let name =
        if is_fbc_oci o
        then trim_prefix (trim_prefix (trim_prefix o.catalog (codes "oci:")) (codes "//"))
            (codes "/")
        else o.catalog in
      if (o.target_name == []) && (o.target_tag == []) then ok name else elim (refs.parse name) [
        | none ↦ err (foreign 2)
        | some r ↦
            let r' = if o.target_name == [] then r else refs.set_name o.target_name r in
            ok (
              refs.exact
                (if o.target_tag == [] then r' else refs.set_tag o.target_tag (refs.set_id [] r')))
      ]

  -- `validateOperatorOptions`, with the names that `seen` holds
  unfoldable pub check_operators : List Str → List Operator → Result (Unit {0})
  unfolding get_unique_name was_seen
  check_operators seen [] = ok tt
  check_operators seen (o ∷ operators) = elim (get_unique_name o) [
    | err e ↦ err e
    | panic ↦ panic
    | out_of_fuel ↦ out_of_fuel
    | ok name ↦ elim (was_seen name seen) [
      | true ↦ err duplicate_catalog
      | false ↦ check_operators (name ∷ seen) operators
    ]
  ]

  abbrev pub errors_of : Result (Unit {0}) → List Error
  errors_of (err e) = invalid_configuration e ∷ []
  errors_of _ = []

  -- `Validate`: the list of the errors found, whose aggregate is nil if it is empty.
  unfoldable pub validate : Mirror → List Error
  unfolding check_operators check_channels
  validate m =
      errors_of (check_operators [] m.operators)
      ++ errors_of (check_channels [] m.platform.channels)
