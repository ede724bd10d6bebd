-- ===== src/Collect/Catalogs.antt =====
-- `OperatorImageCollector` (pkg/operator/collector.go): the loop over the catalogs, and the walk of
-- diskToMirror.
pub mod Last
use golang_fb_mirror.Base.{
  Bool, true, false, not, ◌&&◌, Option, none, some, List, [], ◌∷◌, ◌++◌, ◌-◌, length, List_eq, ℕ_eq,
  if◌then◌else◌, Result, ok, err, panic, out_of_fuel, index, foreign, no_manifests,
  digest_without_sha256,
}
use golang_fb_mirror.Base.Text.{Str, codes, join, split, contains, replace_all, replace_one}
use golang_fb_mirror.Base.Maps.{Map}
use golang_fb_mirror.Base.Action.{Action, ◌>>=◌, lift, ask}
use golang_fb_mirror.Api.{Operator, IncludePackage, IscPackage, RelatedImage}
use golang_fb_mirror.Batch.{CopyImage}
use golang_fb_mirror.Collect.Files.{Files, Mode, mirror_to_disk, disk_to_mirror, other_mode}
use golang_fb_mirror.Collect.Interfaces.{
  OciManifest, OciSchema, ManifestInterface, Copier, Tree, deref, after_colon,
}
use golang_fb_mirror.Collect.Operators.{compare_operators, convert_bundles}

-- The last part of an image's name, with its tag as a directory below it.
unfoldable pub image_index_dir : Str → Result Str
unfolding split index replace_all
image_index_dir name =
    let hld = split name (codes "/") in
    elim (index hld (length hld - 1)) [
      | ok part ↦ ok (replace_all part (codes ":") (codes "/"))
      | r ↦ panic
    ]

-- The digest of the first manifest of an index.
unfoldable pub first_digest : List OciManifest → Result Str
unfolding contains
first_digest [] = err no_manifests
first_digest (m ∷ ms) =
    if contains m.digest (codes "sha256") then ok m.digest else err digest_without_sha256

abbrev pub slashed : List Str → Str
slashed parts = join parts (codes "/")

module _ (files : Files) (mfi : ManifestInterface files.State) (copier : Copier files.State)
    (global_dir : Str) where
  open files use {State, missing, mkdir_all}

  abbrev pub cache_dir_of : Str → Str
  cache_dir_of part = slashed (global_dir ∷ codes "hold-operator" ∷ part ∷ [])

  abbrev pub dir_of_index : Str → Str
  dir_of_index part = slashed (global_dir ∷ codes "operator-images" ∷ part ∷ [])

  abbrev pub blob_of : Str → Str → Str
  blob_of dir digest = slashed (dir ∷ codes "blobs/sha256" ∷ digest ∷ [])

  -- An error of the copy is only logged.
  abbrev pub ignoring_error : Action State (Unit {0}) → Action State (Unit {0})
  ignoring_error m s =
      let (r, s') = m s in
      elim r [
        | ok u ↦ (ok tt, s')
        | err e ↦ (ok tt, s')
        | panic ↦ (panic, s')
        | out_of_fuel ↦ (out_of_fuel, s')
      ]

  -- The index image is copied if the catalog has not been unpacked.
  unfoldable pub download_index : Str → Str → Action State (Unit {0})
  unfolding join
  download_index catalog part s = elim (missing s (cache_dir_of part)) [
    | false ↦ (ok tt, s)
    | true ↦ elim (mkdir_all s (dir_of_index part)) [
      | none ↦ (err (foreign 14), s)
      | some s' ↦
          ignoring_error (copier (codes "docker://" ++ catalog) (codes "oci:" ++ dir_of_index part))
            s'
    ]
  ]

  -- The related images of a catalog without packages, or of its packages.
  unfoldable pub select_images :
      Map Str IscPackage → Operator → Str → Str → State → Result (Map Str (List RelatedImage))
  select_images compare op cache_dir label s = elim (op.packages) [
    | [] ↦ mfi.get_related_images_from_catalog cache_dir label s
    | p ∷ ps ↦ mfi.get_related_images_from_catalog_by_filter cache_dir label (p ∷ ps) compare s
  ]

  -- One round of the loop over the catalogs: the directory of the catalog and its images.
  unfoldable pub read_catalog :
      Map Str IscPackage → Operator → Action State (Str × Map Str (List RelatedImage))
  unfolding image_index_dir download_index first_digest after_colon select_images
  read_catalog compare op = do
    part ← lift (image_index_dir op.catalog)
    let dir = dir_of_index part
    let cache_dir = cache_dir_of part
    _ ← download_index op.catalog part
    index_file ← ask (mfi.get_image_index dir)
    oci_index ← lift (deref index_file)
    digest ← lift (first_digest oci_index.manifests)
    manifest ← lift (after_colon digest)
    oci ← ask (mfi.get_image_manifest (blob_of dir manifest))
    oci_manifest ← lift (deref oci)
    config ← lift (after_colon (oci_manifest.config.digest))
    ocs ← ask (mfi.get_operator_config (blob_of dir config))
    label ← lift (deref ocs)
    _ ← mfi.extract_layers_oci (slashed (dir ∷ codes "blobs/sha256" ∷ [])) cache_dir label oci
    images ← ask (select_images compare op cache_dir label)
    lift (ok (dir, images))

  -- The loop, with the variables `dir` and `relatedImages` that it assigns.
  unfoldable pub read_catalogs :
      Map Str IscPackage
      → List Operator
      → Str × Map Str (List RelatedImage)
      → Action State (Str × Map Str (List RelatedImage))
  unfolding read_catalog
  read_catalogs compare [] found = lift (ok found)
  read_catalogs compare (op ∷ operators) found =
      read_catalog compare op >>= λ found'. read_catalogs compare operators found'

  -- The walk of diskToMirror. The callback returns no error for a path that cannot be read.
  module _ (tree : Tree State) (destination : Str) where
    unfoldable pub copy_of_path : Str → Result CopyImage
    unfolding split index
    copy_of_path path = elim (index (split (tree.dir_of path) (codes "operator-images")) 1) [
      | ok part ↦
          ok (record {
            source = codes "oci:" ++ tree.dir_of path;
            destination = destination ++ part;
          })
      | r ↦ panic
    ]

    unfoldable pub visit_paths :
        Str → List (Option Str) → List CopyImage → Action State (List CopyImage)
    unfolding copy_of_path contains
    visit_paths name [] result = lift (ok result)
    visit_paths name (none ∷ paths) result = visit_paths name paths result
    visit_paths name (some path ∷ paths) result =
        elim (tree.matches (codes "index.json") path && contains path name) [
          | true ↦ lift (copy_of_path path) >>= λ c. visit_paths name paths (result ++ c ∷ [])
          | false ↦ visit_paths name paths result
        ]

    unfoldable pub visit_packages :
        Str → List IncludePackage → List CopyImage → Action State (List CopyImage)
    unfolding visit_paths
    visit_packages dir [] result s = (ok result, s)
    visit_packages dir (pkg ∷ packages) result s =
        (visit_paths pkg.name (tree.walk s dir) result >>= λ result'.
        visit_packages dir packages result')
          s

    unfoldable pub visit_catalogs : List Operator → List CopyImage → Action State (List CopyImage)
    unfolding visit_packages replace_one
    visit_catalogs [] result = lift (ok result)
    visit_catalogs (op ∷ operators) result =
        visit_packages (replace_one op.catalog (codes "dir://") []) op.packages result
        >>= λ result'. visit_catalogs operators result'

    -- `OperatorImageCollector`; `fresh_name` is the name of an image that has none.
    unfoldable pub operator_image_collector :
        Str → Mode → List Operator → Action State (List CopyImage)
    unfolding read_catalogs convert_bundles visit_catalogs compare_operators
    operator_image_collector fresh_name mirror_to_disk operators =
        read_catalogs (compare_operators operators []) operators ([], []) >>= λ found.
        convert_bundles files fresh_name found.0 found.1 []
    operator_image_collector fresh_name disk_to_mirror operators = visit_catalogs operators []
    operator_image_collector fresh_name other_mode operators = lift (ok [])
