-- ===== src/Collect/Operators.antt =====
-- What the operator collector compares and copies (pkg/operator/collector.go).
pub mod Steps
pub mod Cached
pub mod Twin
pub mod Again
use golang_fb_mirror.Base.{
  Bool, true, false, none, some, List, [], ◌∷◌, ◌++◌, ◌==◌, List_eq, ℕ_eq, if◌then◌else◌, Result,
  ok, err, panic, out_of_fuel, foreign,
}
use golang_fb_mirror.Base.Text.{Str, codes, join}
use golang_fb_mirror.Base.Maps.{Map, put}
use golang_fb_mirror.Api.{Operator, IncludePackage, IncludeChannel, IscPackage, RelatedImage}
use golang_fb_mirror.Batch.{CopyImage}
use golang_fb_mirror.Names.{custom_image_parser}
use golang_fb_mirror.Collect.Files.{Files}

-- The loops that compile the map `compare`: each channel of a package writes the package's key.
unfoldable pub compare_channels :
    Bool → Str → List IncludeChannel → Map Str IscPackage → Map Str IscPackage
unfolding put
compare_channels full name [] compare = compare
compare_channels full name (ch ∷ channels) compare = compare_channels full name channels (
    put name
      (record {
        channel = ch.name;
        min_version = ch.bundle.min_version;
        max_version = ch.bundle.max_version;
        full = full;
      })
      compare)

unfoldable pub compare_packages :
    Bool → List IncludePackage → Map Str IscPackage → Map Str IscPackage
unfolding compare_channels
compare_packages full [] compare = compare
compare_packages full (pkg ∷ packages) compare =
    compare_packages full packages (compare_channels full pkg.name pkg.channels compare)

unfoldable pub compare_operators : List Operator → Map Str IscPackage → Map Str IscPackage
unfolding compare_packages
compare_operators [] compare = compare
compare_operators (op ∷ operators) compare =
    compare_operators operators (compare_packages op.full op.packages compare)

-- The six hexadecimal digits of a hash of the time, for an image without a name, are a parameter.
module _ (files : Files) (fresh_name : Str) where
  open files use {State, missing, mkdir_all}

  abbrev pub name_of : RelatedImage → Str
  name_of img = if img.name == [] then fresh_name else img.name

  -- The inner loop of `batchWorkerConverter`, over the images of a bundle. A directory that exists
  -- means that the image is in the cache.
  unfoldable pub convert_images :
      Str → Str → List RelatedImage → List CopyImage → State → Result (List CopyImage) × State
  unfolding custom_image_parser join
  convert_images dir bundle [] result s = (ok result, s)
  convert_images dir bundle (img ∷ images) result s = elim (custom_image_parser img.image) [
    | err e ↦ (err e, s)
    | panic ↦ (panic, s)
    | out_of_fuel ↦ (out_of_fuel, s)
    | ok irs ↦
        let component_dir = join (dir ∷ bundle ∷ irs.namespace ∷ []) (codes "/") in
        let image : CopyImage = record {
          source = codes "docker://" ++ img.image;
          destination =
              codes "dir:" ++ join (dir ∷ bundle ∷ irs.namespace ∷ name_of img ∷ []) (codes "/");
        } in
        elim (missing s component_dir) [
          | false ↦ convert_images dir bundle images result s
          | true ↦ elim (mkdir_all s component_dir) [
            | none ↦ (err (foreign 8), s)
            | some s' ↦ convert_images dir bundle images (result ++ image ∷ []) s'
          ]
        ]
  ]

  -- `batchWorkerConverter`; Go visits the bundles in any order, here they come as they were put.
  unfoldable pub convert_bundles :
      Str → Map Str (List RelatedImage) → List CopyImage → State → Result (List CopyImage) × State
  unfolding convert_images
  convert_bundles dir [] result s = (ok result, s)
  convert_bundles dir ((bundle, images) ∷ rest) result s =
      let (r, s') = convert_images dir bundle images result s in
      elim r [
        | ok result' ↦ convert_bundles dir rest result' s'
        | err e ↦ (err e, s')
        | panic ↦ (panic, s')
        | out_of_fuel ↦ (out_of_fuel, s')
      ]
