-- ===== src/Collect/Releases/Loop.antt =====
-- `ReleaseImageCollector` (pkg/release/collector.go): the loop over the releases, and the walk of
-- diskToMirror.
use golang_fb_mirror.Base.{
  true, false, Option, none, some, List, [], ◌∷◌, ◌++◌, ◌-◌, length, ◌==◌, List_eq, ℕ_eq,
  if◌then◌else◌, Result, ok, err, panic, out_of_fuel, index, foreign, index_not_found,
  release_error,
}
use golang_fb_mirror.Base.Text.{Str, codes, join, split, replace_one}
use golang_fb_mirror.Base.Action.{Action, ◌>>=◌, lift, ask}
use golang_fb_mirror.Api.{RelatedImage}
use golang_fb_mirror.Batch.{CopyImage}
use golang_fb_mirror.Collect.Files.{Files, Mode, mirror_to_disk, disk_to_mirror, other_mode}
use golang_fb_mirror.Collect.Interfaces.{
  OciManifest, ManifestInterface, Copier, Tree, deref, after_colon,
}
use golang_fb_mirror.Collect.Catalogs.{image_index_dir, slashed}
use golang_fb_mirror.Collect.Releases.{find_related_image, convert_release}

-- `releaseImageExtractFullPath`
abbrev pub extract_path : Str
extract_path = codes "release-manifests/image-references"

unfoldable pub first_manifest : List OciManifest → Result Str
unfolding after_colon
first_manifest [] = err index_not_found
first_manifest (m ∷ ms) = after_colon m.digest

-- The last part of the directory of a path
unfoldable pub component_of : Str → Result Str
unfolding split index
component_of dir = let parts = split dir (codes "/") in index parts (length parts - 1)

-- The error of a step under the collector's own message
unfoldable pub wrapping {ℓ} : {S : Type 0} {A : Type ℓ} → Action S A → Action S A
wrapping m s =
    let (r, s') = m s in
    elim r [
      | ok a ↦ (ok a, s')
      | err e ↦ (err (release_error e), s')
      | panic ↦ (panic, s')
      | out_of_fuel ↦ (out_of_fuel, s')
    ]

module _ (files : Files) (mfi : ManifestInterface files.State) (copier : Copier files.State)
    (global_dir : Str) where
  open files use {State, missing, mkdir_all}

  abbrev pub dir_of_release : Str → Str
  dir_of_release part = slashed (global_dir ∷ codes "release-images" ∷ part ∷ [])

  abbrev pub cache_of_release : Str → Str
  cache_of_release part = slashed (global_dir ∷ codes "hold-release" ∷ part ∷ [])

  -- The release image is copied if its directory is not there.
  unfoldable pub download_release : Str → Str → Action State (Unit {0})
  unfolding join
  download_release source dir s = elim (missing s dir) [
    | false ↦ (ok tt, s)
    | true ↦ elim (mkdir_all s dir) [
      | none ↦ (err (foreign 15), s)
      | some s' ↦ copier (codes "docker://" ++ source) (codes "oci:" ++ dir) s'
    ]
  ]

  -- One round of the loop over the releases
  unfoldable pub read_release : CopyImage → Action State (List CopyImage)
  unfolding image_index_dir download_release first_manifest convert_release
  read_release value = do
    part ← lift (image_index_dir value.source)
    let dir = dir_of_release part
    let cache_dir = cache_of_release part
    _ ← download_release value.source dir
    index_file ← ask (mfi.get_image_index dir)
    oci ← lift (deref index_file)
    manifest ← lift (first_manifest oci.manifests)
    mfst ← ask (mfi.get_image_manifest (slashed (dir ∷ codes "blobs/sha256" ∷ manifest ∷ [])))
    _ ←
        mfi.extract_layers_oci (slashed (dir ∷ codes "blobs/sha256" ∷ [])) cache_dir
          (codes "release-manifests") mfst
    related ← ask (mfi.get_release_schema (slashed (cache_dir ∷ extract_path ∷ [])))
    convert_release files dir related []

  unfoldable pub read_releases : List CopyImage → List CopyImage → Action State (List CopyImage)
  unfolding read_release wrapping
  read_releases [] result = lift (ok result)
  read_releases (value ∷ releases) result =
      wrapping (read_release value) >>= λ images. read_releases releases (result ++ images)

  module _ (tree : Tree State) (destination : Str) where
    -- The image of a directory with the name of a component, if the release has it.
    unfoldable pub copy_of_component : List RelatedImage → Str → Str → Option CopyImage
    unfolding find_related_image
    copy_of_component related dir component =
        let img = find_related_image component related in
        if img == []
        then none
        else some (record {
          source = codes "dir:" ++ dir;
          destination = destination ++ (codes "/" ++ img);
        })

    abbrev pub add_some : List CopyImage → Option CopyImage → List CopyImage
    add_some result none = result
    add_some result (some c) = result ++ c ∷ []

    -- The callback of `filepath.Walk`. It returns an error for a path that cannot be read; the
    -- collector then returns no images, with the error of `regexp.Compile`, which is nil.
    unfoldable pub visit_components :
        List RelatedImage → List (Option Str) → List CopyImage → Result (List CopyImage)
    unfolding component_of copy_of_component
    visit_components related [] result = ok result
    visit_components related (none ∷ paths) result = ok []
    visit_components related (some path ∷ paths) result =
        elim (tree.matches (codes "manifest.json") path) [
          | false ↦ visit_components related paths result
          | true ↦ elim (component_of (tree.dir_of path)) [
            | ok component ↦
                visit_components related paths
                  (add_some result (copy_of_component related (tree.dir_of path) component))
            | r ↦ panic
          ]
        ]

    unfoldable pub release_to_mirror : Str → State → Result (List CopyImage)
    unfolding visit_components replace_one
    release_to_mirror release s =
        let str =
          replace_one (replace_one release (codes "release-images") (codes "hold-release"))
            (codes "dir://") [] in
        let images_dir = replace_one release (codes "dir://") [] ++ codes "/images" in
        elim (mfi.get_release_schema (str ++ (codes "/" ++ extract_path)) s) [
          | ok related ↦ visit_components related (tree.walk s images_dir) []
          | err e ↦ err (release_error e)
          | panic ↦ panic
          | out_of_fuel ↦ out_of_fuel
        ]

    -- `ReleaseImageCollector`, with the releases of `GetReleaseReferenceImages`
    unfoldable pub release_image_collector :
        Mode → Action State (List CopyImage) → Str → Action State (List CopyImage)
    unfolding read_releases release_to_mirror
    release_image_collector mirror_to_disk get_releases release =
        get_releases >>= λ releases. read_releases releases []
    release_image_collector disk_to_mirror get_releases release = ask (release_to_mirror release)
    release_image_collector other_mode get_releases release = lift (ok [])
