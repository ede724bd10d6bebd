-- ===== src/Manifest/Reader.antt =====
-- The readers of index and manifest files (pkg/manifest/oci-manifest.go), and `Manifest` as the
-- interface that the collectors call.
use golang_fb_mirror.Base.{Option, true, false, none, some, [], ◌++◌, map, Result, ok, panic, ◌>>=◌}
use golang_fb_mirror.Base.Text.{Str, codes}
use golang_fb_mirror.Base.Action.{Action}
use golang_fb_mirror.Semver.{Semver}
use golang_fb_mirror.Collect.Interfaces.{OciManifest, OciSchema, ManifestInterface}
use golang_fb_mirror.Manifest.Catalog.{
  Disk, Archives, required, extract_layers_oci, get_related_images_from_catalog, catalog_packages,
  get_release_schema,
}

-- `json.Unmarshal` into a pointer, `some none` for the JSON `null`. Of an operator's configuration
-- the program reads a label.
pub record Decoders : Type 0 where
  pub decode_oci : Str → Option (Option OciSchema)
  pub decode_operator_config : Str → Option (Option Str)

module _ (disk : Disk) (dec : Decoders) where
  -- `GetImageIndex`
  unfoldable pub get_image_index : Str → Result (Option OciSchema)
  get_image_index dir = do
    text ← required (disk.read_file (dir ++ codes "/index.json"))
    required (dec.decode_oci text)

  -- `GetImageManifest`
  unfoldable pub get_image_manifest : Str → Result (Option OciSchema)
  get_image_manifest file = do text ← required (disk.read_file file); required (dec.decode_oci text)

  -- `GetOperatorConfig`
  unfoldable pub get_operator_config : Str → Result (Option Str)
  get_operator_config file = do
    text ← required (disk.read_file file)
    required (dec.decode_operator_config text)

-- `Manifest` as a `ManifestInterface`: the disk that is read is a view of the state.
module _ (sv : Semver) (ar : Archives) (view : ar.State → Disk) (dec : Decoders) where
  -- A nil pointer is read only if the layers are not there yet.
  unfoldable pub extract_layers_of : Str → Str → Str → Option OciSchema → Action ar.State (Unit {0})
  unfolding extract_layers_oci
  extract_layers_of from to label none s =
      (elim (ar.missing s (to ++ (codes "/" ++ label))) [ true ↦ panic | false ↦ ok tt ], s)
  extract_layers_of from to label (some oci) s =
      extract_layers_oci ar from to label (map (λ (m : OciManifest). m.digest) oci.layers) s

  unfoldable pub manifest_of : ManifestInterface ar.State
  unfolding get_image_index get_image_manifest get_operator_config extract_layers_of
      get_release_schema get_related_images_from_catalog catalog_packages
  manifest_of = record {
    get_image_index = λ dir s. get_image_index (view s) dec dir;
    get_image_manifest = λ file s. get_image_manifest (view s) dec file;
    get_operator_config = λ file s. get_operator_config (view s) dec file;
    get_related_images_from_catalog =
        λ path label s. get_related_images_from_catalog sv (view s) path;
    get_related_images_from_catalog_by_filter =
        λ path label packages mp s. catalog_packages sv (view s) path label mp packages [];
    extract_layers_oci = extract_layers_of;
    get_release_schema = λ path s. get_release_schema sv (view s) path;
  }
