-- ===== src/Collect/Interfaces.antt =====
-- The interfaces that the collectors of releases and operators call: `ManifestInterface`
-- (pkg/manifest), the copy of an index image by `MirrorInterface`, and `filepath.Walk`.
use golang_fb_mirror.Base.{ℕ, Bool, Option, none, some, List, Result, ok, panic, index}
use golang_fb_mirror.Base.Text.{Str, codes, split}
use golang_fb_mirror.Base.Maps.{Map}
use golang_fb_mirror.Base.Action.{Action}
use golang_fb_mirror.Api.{IncludePackage, IscPackage, RelatedImage}

-- `v1alpha3.OCIManifest`
pub record OciManifest : Type 0 where
  pub media_type : Str
  pub digest : Str
  pub size : ℕ

-- `v1alpha3.OCISchema`
pub record OciSchema : Type 0 where
  pub schema_version : ℕ
  pub media_type : Str
  pub manifests : List OciManifest
  pub config : OciManifest
  pub layers : List OciManifest

-- `ManifestInterface`. A pointer that the JSON `null` leaves nil is `none`; of an operator's
-- configuration the program reads the label of the index.
pub record ManifestInterface (W : Type 0) : Type 0 where
  pub get_image_index : Str → W → Result (Option OciSchema)
  pub get_image_manifest : Str → W → Result (Option OciSchema)
  pub get_operator_config : Str → W → Result (Option Str)
  pub get_related_images_from_catalog : Str → Str → W → Result (Map Str (List RelatedImage))
  pub get_related_images_from_catalog_by_filter :
      Str
      → Str
      → List IncludePackage
      → Map Str IscPackage
      → W
      → Result (Map Str (List RelatedImage))
  pub extract_layers_oci : Str → Str → Str → Option OciSchema → Action W (Unit {0})
  pub get_release_schema : Str → W → Result (List RelatedImage)

-- `Mirror.Run` in the mode `copy`, by the source and the destination
abbrev pub Copier : Type 0 → Type 0
Copier W = Str → Str → Action W (Unit {0})

-- `filepath.Walk`: the paths below a directory in its order, `none` for one that it reports with an
-- error; `regex.MatchString(info.Name())` for a regular expression and a path; and `filepath.Dir`.
pub record Tree (W : Type 0) : Type 0 where
  pub walk : W → Str → List (Option Str)
  pub matches : Str → Str → Bool
  pub dir_of : Str → Str

-- `*p`
abbrev pub deref {ℓ} : {A : Type ℓ} → Option A → Result A
deref none = panic
deref (some a) = ok a

-- `strings.Split(digest, ":")[1]`
unfoldable pub after_colon : Str → Result Str
unfolding split index
after_colon digest = index (split digest (codes ":")) 1
