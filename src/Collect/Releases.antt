-- ===== src/Collect/Releases.antt =====
-- What the release collector copies for one release (pkg/release/collector.go).
pub mod Loop
pub mod Related
pub mod Walk
use golang_fb_mirror.Base.{
  true, false, none, some, List, [], ◌∷◌, ◌++◌, ◌==◌, List_eq, ℕ_eq, if◌then◌else◌, Result, ok, err,
  foreign, drop,
}
use golang_fb_mirror.Base.Text.{Str, codes, join, split}
use golang_fb_mirror.Api.{RelatedImage}
use golang_fb_mirror.Batch.{CopyImage}
use golang_fb_mirror.Collect.Files.{Files}

-- `findRelatedImage`
unfoldable pub find_related_image : Str → List RelatedImage → Str
unfolding join split
find_related_image name [] = []
find_related_image name (img ∷ images) =
    let rest = find_related_image name images in
    if name == img.name then join (drop 1 (split img.image (codes "/"))) (codes "/") else rest

module _ (files : Files) where
  open files use {State, missing, mkdir_all}

  abbrev pub image_dir : Str → RelatedImage → Str
  image_dir dir img = dir ++ (codes "/images/" ++ img.name)

  -- `batcWorkerConverter`
  unfoldable pub convert_release :
      Str → List RelatedImage → List CopyImage → State → Result (List CopyImage) × State
  unfolding join
  convert_release dir [] result s = (ok result, s)
  convert_release dir (img ∷ images) result s = elim (missing s (image_dir dir img)) [
    | false ↦ convert_release dir images result s
    | true ↦ elim (mkdir_all s (image_dir dir img)) [
      | none ↦ (err (foreign 9), s)
      | some s' ↦
          convert_release dir images
            (result
              ++ record {
                source = codes "docker://" ++ img.image;
                destination =
                    codes "dir:" ++ join (dir ∷ codes "images" ∷ img.name ∷ []) (codes "/");
              }
                ∷ [])
            s'
    ]
  ]
