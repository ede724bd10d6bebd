-- ===== src/Manifest/Related.antt =====
-- Which bundles' images are mirrored: `getRelatedImageByDefaultChannel` and
-- `getRelatedImageByFilter` (pkg/manifest/oci-manifest.go).

pub mod Origin
use golang_fb_mirror.Base.{
  Bool, true, List, [], ◌∷◌, ◌==◌, List_eq, ℕ_eq, if◌then◌else◌, Result, ok, err, ◌>>=◌, index,
}
use golang_fb_mirror.Base.Text.{Str, codes}
use golang_fb_mirror.Base.Maps.{Map, has, put}
use golang_fb_mirror.Semver.{Semver}
use golang_fb_mirror.Api.{DeclarativeConfig, RelatedImage, IscPackage}
use golang_fb_mirror.Manifest.Versions.{semver_find_max, semver_find_range}

-- `relatedImages`, `bundles` and `defaultChannel`. Every value put into `bundles` is true.
pub record Scan : Type 0 where
  pub related_images : Map Str (List RelatedImage)
  pub bundles : Map Str Bool
  pub default_channel : Str

-- `bundles[name] = true` for every name
unfoldable pub mark_all : List Str → Map Str Bool → Map Str Bool
unfolding put
mark_all [] bundles = bundles
mark_all (x ∷ names) bundles = mark_all names (put x true bundles)

-- The three kinds of catalog objects that the program reads.
pub data Schema : Type 0 where
  channel_object bundle_object package_object other_object : Schema

-- `switch { case obj.Schema == … }`
unfoldable pub schema_of : Str → Schema
schema_of s =
    if s == codes "olm.channel"
    then channel_object
    else if s == codes "olm.bundle"
    then bundle_object
    else if s == codes "olm.package"
    then package_object
    else other_object

-- An error of a search for versions is logged, and the caller goes on with the empty result.
abbrev pub or_logged {ℓ} : {A : Type ℓ} → A → Result A → Result A
or_logged a (err _) = ok a
or_logged a r = r

module _ (sv : Semver) where
  -- `bundles[name] = true` for the largest version of the channel
  unfoldable pub mark_max : DeclarativeConfig → Scan → Result Scan
  unfolding semver_find_max put
  mark_max obj s = do
    name ← or_logged [] (semver_find_max sv obj.entries)
    ok (record s { bundles = put name true s.bundles })

  unfoldable pub keep_bundle : DeclarativeConfig → Scan → Scan
  unfolding put
  keep_bundle obj s = record s { related_images = put obj.name obj.related_images s.related_images }

  -- One object of `getRelatedImageByDefaultChannel`; the debug message reads `obj.Entries[0]`.
  unfoldable pub default_object : Schema → DeclarativeConfig → Scan → Result Scan
  unfolding mark_max keep_bundle index has
  default_object channel_object obj s =
      if s.default_channel == obj.name then (index obj.entries 0 >>= λ _. mark_max obj s) else ok s
  default_object bundle_object obj s = ok (if has obj.name s.bundles then keep_bundle obj s else s)
  default_object package_object obj s = ok (record s { default_channel = obj.default_channel })
  default_object other_object obj s = ok s

  unfoldable pub default_objects : List DeclarativeConfig → Scan → Result Scan
  unfolding schema_of default_object
  default_objects [] s = ok s
  default_objects (obj ∷ olm) s =
      default_object (schema_of obj.schema) obj s >>= default_objects olm

  abbrev pub no_scan : Scan
  no_scan = record { related_images = []; bundles = []; default_channel = [] }

  -- `getRelatedImageByDefaultChannel`
  unfoldable pub get_related_image_by_default_channel :
      List DeclarativeConfig → Result (Map Str (List RelatedImage))
  unfolding default_objects
  get_related_image_by_default_channel olm = do s ← default_objects olm no_scan; ok s.related_images

  -- One object of `getRelatedImageByFilter`.
  unfoldable pub filter_object : IscPackage → Schema → DeclarativeConfig → Scan → Result Scan
  unfolding mark_all mark_max keep_bundle semver_find_range has put
  filter_object pkg channel_object obj s =
      if pkg.channel == []
      then mark_max obj s
      else if pkg.channel == obj.name
      then (or_logged [] (semver_find_range sv obj.entries pkg.min_version pkg.max_version)
          >>= λ names. ok (record s { bundles = mark_all names s.bundles }))
      else ok s
  filter_object pkg bundle_object obj s = ok (
      if pkg.full
      then keep_bundle obj s
      else if has obj.name s.bundles
      then keep_bundle obj s
      else s)
  filter_object pkg package_object obj s =
      ok (record s { bundles = put obj.default_channel true s.bundles })
  filter_object pkg other_object obj s = ok s

  unfoldable pub filter_objects : IscPackage → List DeclarativeConfig → Scan → Result Scan
  unfolding schema_of filter_object
  filter_objects pkg [] s = ok s
  filter_objects pkg (obj ∷ olm) s =
      filter_object pkg (schema_of obj.schema) obj s >>= filter_objects pkg olm

  -- `getRelatedImageByFilter`
  unfoldable pub get_related_image_by_filter :
      IscPackage → List DeclarativeConfig → Result (Map Str (List RelatedImage))
  unfolding filter_objects
  get_related_image_by_filter pkg olm = do s ← filter_objects pkg olm no_scan; ok s.related_images
