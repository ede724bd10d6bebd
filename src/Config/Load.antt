-- ===== src/Config/Load.antt =====
-- `ReadConfig` and `LoadConfig` (pkg/config/load.go).
use golang_fb_mirror.Base.{
  Option, none, some, List, ◌==◌, List_eq, ℕ_eq, if◌then◌else◌, ◌&&◌, Result, Error, ok, err, ◌>>=◌,
  foreign, unknown_kind,
}
use golang_fb_mirror.Base.Text.{Str, codes}
use golang_fb_mirror.Api.{Mirror}
use golang_fb_mirror.Config.Validate.{References, complete, validate}

-- Files, and the packages that decode YAML and JSON. The version and kind of the type metadata
-- are strings; a document is decoded with unknown fields refused.
pub record Documents : Type 1 where
  pub read_file : Str → Option Str
  pub type_meta : Str → Option (Str × Str)
  pub yaml_to_json : Str → Option Str
  pub decode : Str → Option Mirror

module _ (docs : Documents) (refs : References) where
  abbrev pub required {ℓ} : {A : Type ℓ} → Option A → Result A
  required none = err (foreign 3)
  required (some a) = ok a

  -- `LoadConfig`
  unfoldable pub load_config : Str → Result Mirror
  load_config text = do json ← required (docs.yaml_to_json text); required (docs.decode json)

  -- `ReadConfig`: the configuration, completed, and the errors of its validation.
  unfoldable pub read_config : Str → Result (Mirror × List Error)
  unfolding load_config complete validate
  read_config path = do
    text ← required (docs.read_file path)
    (version, kind) ← required (docs.type_meta text)
    c ←
        (if (version == codes "mirror.openshift.io/v1alpha2")
            && (kind == codes "ImageSetConfiguration")
          then load_config text
          else err unknown_kind)
    ok (complete c, validate refs (complete c))
