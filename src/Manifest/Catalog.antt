-- ===== src/Manifest/Catalog.antt =====
-- Catalogs, layers and releases on disk (pkg/manifest/oci-manifest.go). Files, archives and JSON
-- are parameters.
use golang_fb_mirror.Base.{
  Bool, false, not, Option, none, some, List, [], ◌∷◌, ◌++◌, map, ◌==◌, List_eq, ℕ_eq,
  if◌then◌else◌, Result, ok, err, panic, ◌>>=◌, index, foreign, bad_digest,
}
use golang_fb_mirror.Base.Text.{Str, codes, contains, split, replace_all, trim_prefix, trim_suffix}
use golang_fb_mirror.Base.Maps.{Map, lookup, put}
use golang_fb_mirror.Semver.{Semver}
use golang_fb_mirror.Api.{DeclarativeConfig, RelatedImage, IscPackage, IncludePackage}
use golang_fb_mirror.Manifest.Related.{
  get_related_image_by_default_channel, get_related_image_by_filter,
}

-- A tag of `v1alpha3.ReleaseSchema`: its name and `From.Name`.
pub record Tag : Type 0 where
  pub name : Str
  pub from_name : Str

pub record Disk : Type 0 where
  -- os.ReadFile
  pub read_file : Str → Option Str
  -- the names that os.ReadDir lists
  pub read_dir : Str → Option (List Str)
  -- json.Unmarshal of a list of catalog objects, and of the tags of a release
  pub decode_catalog : Str → Option (List DeclarativeConfig)
  pub decode_release : Str → Option (List Tag)

abbrev pub required {ℓ} : {A : Type ℓ} → Option A → Result A
required none = err (foreign 10)
required (some a) = ok a

-- The files of a catalog are JSON objects one after the other: made into a list.
unfoldable pub catalog_json : Str → Str
unfolding replace_all
catalog_json text =
    codes "["
    ++ (replace_all (replace_all text (codes " ") []) (125 ∷ 10 ∷ 123 ∷ []) (codes "},{")
        ++ codes "]")

-- `relatedImages[k] = v` for every entry of `ri`
unfoldable pub add_all :
    Map Str (List RelatedImage) → Map Str (List RelatedImage) → Map Str (List RelatedImage)
unfolding put
add_all images [] = images
add_all images ((k, v) ∷ ri) = add_all (put k v images) ri

-- `mp[pkg.Name]`; a missing key reads as the zero value.
unfoldable pub package_of : Str → Map Str IscPackage → IscPackage
unfolding lookup
package_of name mp = elim (lookup name mp) [
  | none ↦ record { channel = []; min_version = []; max_version = []; full = false }
  | some p ↦ p
]

module _ (sv : Semver) (disk : Disk) where
  -- `readOperatorCatalog`
  unfoldable pub read_operator_catalog : Str → Result (List DeclarativeConfig)
  unfolding catalog_json
  read_operator_catalog path = do
    text ← required (disk.read_file (path ++ codes "/catalog.json"))
    required (disk.decode_catalog (catalog_json text))

  unfoldable pub catalog_files :
      Str → List Str → Map Str (List RelatedImage) → Result (Map Str (List RelatedImage))
  unfolding read_operator_catalog get_related_image_by_default_channel add_all
  catalog_files path [] images = ok images
  catalog_files path (file ∷ files) images =
      read_operator_catalog (path ++ (codes "/" ++ file)) >>= λ olm.
      get_related_image_by_default_channel sv olm >>= λ ri.
      catalog_files path files (add_all images ri)

  -- `GetRelatedImagesFromCatalog`
  unfoldable pub get_related_images_from_catalog : Str → Result (Map Str (List RelatedImage))
  unfolding catalog_files
  get_related_images_from_catalog path =
      required (disk.read_dir path) >>= λ files. catalog_files path files []

  -- The loop of `GetRelatedImagesFromCatalogByFilter`.
  unfoldable pub catalog_packages :
      Str
      → Str
      → Map Str IscPackage
      → List IncludePackage
      → Map Str (List RelatedImage)
      → Result (Map Str (List RelatedImage))
  unfolding read_operator_catalog get_related_image_by_filter add_all package_of
  catalog_packages path label mp [] images = ok images
  catalog_packages path label mp (pkg ∷ packages) images =
      read_operator_catalog (path ++ (codes "/" ++ (label ++ (codes "/" ++ pkg.name)))) >>= λ olm.
      get_related_image_by_filter sv (package_of pkg.name mp) olm >>= λ ri.
      catalog_packages path label mp packages (add_all images ri)

  -- `GetReleaseSchema`
  unfoldable pub get_release_schema : Str → Result (List RelatedImage)
  get_release_schema path = do
    text ← required (disk.read_file path)
    tags ← required (disk.decode_release text)
    ok (map (λ (t : Tag). record { name = t.name; image = t.from_name }) tags)

-- What `untar` does with an entry of the archive: `Typeflag` is `tar.TypeDir`, `tar.TypeReg` or
-- another.
pub data Kind : Type 0 where
  directory regular other_kind : Kind

pub record Header : Type 0 where
  pub name : Str
  pub kind : Kind

-- The state of the disk, with what may fail.
pub record Archives : Type 1 where
  pub State : Type 0
  -- os.Stat says that the path does not exist
  pub missing : State → Str → Bool
  -- os.Open and gzip.NewReader, with the entries that the tar reader then gives and whether it ends
  -- with io.EOF
  pub open_layer : State → Str → Option (List Header × Bool)
  -- os.MkdirAll; os.Create with io.Copy of the entry
  pub mkdir_all : State → Str → Option State
  pub write_file : State → Str → Option State

module _ (ar : Archives) where
  open ar use {State, missing, open_layer, mkdir_all, write_file}

  abbrev pub written : State → Option State → Result (Unit {0}) × State
  written s none = (err (foreign 11), s)
  written s (some s') = (ok tt, s')

  -- One entry: only names that contain the directory of the configurations are unpacked.
  unfoldable pub unpack : Str → Str → Header → State → Result (Unit {0}) × State
  unfolding contains
  unpack path dir h s =
      if contains h.name dir
      then elim h.kind [
        | directory ↦
            if h.name == codes "./"
            then (ok tt, s)
            else written s (mkdir_all s (path ++ (codes "/" ++ h.name)))
        | regular ↦ written s (write_file s (path ++ (codes "/" ++ h.name)))
        | other_kind ↦ (ok tt, s)
      ]
      else (ok tt, s)

  unfoldable pub unpack_all : Str → Str → List Header → Bool → State → Result (Unit {0}) × State
  unfolding unpack
  unpack_all path dir [] eof s = (if eof then ok tt else err (foreign 12), s)
  unpack_all path dir (h ∷ headers) eof s =
      let (r, s') = unpack path dir h s in
      elim r [ ok _ ↦ unpack_all path dir headers eof s' | r' ↦ (r', s') ]

  -- `untar`, with the slashes around the label dropped
  unfoldable pub untar : Str → Str → List Header × Bool → State → Result (Unit {0}) × State
  unfolding unpack_all trim_prefix trim_suffix
  untar path label (headers, eof) s =
      unpack_all path (trim_prefix (trim_suffix label (codes "/")) (codes "/")) headers eof s

  -- The loop over the layers: `strings.Split(blob.Digest, ":")[1]` panics without a colon.
  unfoldable pub extract_layers : Str → Str → Str → List Str → State → Result (Unit {0}) × State
  unfolding contains split index untar
  extract_layers from to label [] s = (ok tt, s)
  extract_layers from to label (digest ∷ layers) s =
      if not (contains digest (codes "sha256"))
      then (err bad_digest, s)
      else elim (index (split digest (codes ":")) 1) [
        | ok blob ↦ elim (open_layer s (from ++ (codes "/" ++ blob))) [
          | none ↦ (err (foreign 13), s)
          | some layer ↦
              let (r, s') = untar to label layer s in
              elim r [ ok _ ↦ extract_layers from to label layers s' | r' ↦ (r', s') ]
        ]
        | err e ↦ (err e, s)
        | r' ↦ (panic, s)
      ]

  -- `ExtractLayersOCI`
  unfoldable pub extract_layers_oci : Str → Str → Str → List Str → State → Result (Unit {0}) × State
  unfolding extract_layers
  extract_layers_oci from to label layers s =
      if missing s (to ++ (codes "/" ++ label))
      then extract_layers from to label layers s
      else (ok tt, s)
