-- ===== src/Collect/Operators/Steps.antt =====
-- The inner loop of `batchWorkerConverter` image by image, and what `os.MkdirAll` does.
use golang_fb_mirror.Base.{
  ◌≡◌, refl, true, false, none, some, List, [], ◌∷◌, ◌++◌, ok, err, panic, out_of_fuel, foreign,
  Error,
}
use golang_fb_mirror.Base.Text.{Str, codes, join}
use golang_fb_mirror.Api.{RelatedImage, ImageRef}
use golang_fb_mirror.Batch.{CopyImage}
use golang_fb_mirror.Names.{custom_image_parser}
use golang_fb_mirror.Collect.Files.{Files}
use golang_fb_mirror.Collect.Operators.{convert_images, name_of}

-- What `os.MkdirAll` does: the directory is there, and what was there stays.
pub record Makes (files : Files) : Type 0 where
  pub made :
      (s s' : files.State) (d : Str) → files.mkdir_all s d ≡ some s' → files.missing s' d ≡ false
  pub kept :
      (s s' : files.State) (d e : Str)
      → files.mkdir_all s d ≡ some s'
      → files.missing s e ≡ false
      → files.missing s' e ≡ false

-- The directory of the images of a namespace in a bundle.
abbrev pub component_dir : Str → Str → ImageRef → Str
component_dir dir bundle irs = join (dir ∷ bundle ∷ irs.namespace ∷ []) (codes "/")

module _ (files : Files) (fresh_name : Str) (makes : Makes files) where
  -- The copy of an image.
  abbrev pub copy_of : Str → Str → RelatedImage → ImageRef → CopyImage
  copy_of dir bundle img irs = record {
    source = codes "docker://" ++ img.image;
    destination =
        codes "dir:"
        ++ join (dir ∷ bundle ∷ irs.namespace ∷ name_of files fresh_name img ∷ []) (codes "/");
  }

  pub convert-cached :
      (dir bundle : Str) (img : RelatedImage) (images : List RelatedImage) (irs : ImageRef)
      (result : List CopyImage) (s : files.State)
      → custom_image_parser img.image ≡ ok irs
      → files.missing s (component_dir dir bundle irs) ≡ false
      → convert_images files fresh_name dir bundle (img ∷ images) result s
        ≡ convert_images files fresh_name dir bundle images result s
  unfolding convert_images
  convert-cached dir bundle img images irs result s p m = rw (convert_images, p, m) refl

  pub convert-failed :
      (dir bundle : Str) (img : RelatedImage) (images : List RelatedImage) (irs : ImageRef)
      (result : List CopyImage) (s : files.State)
      → custom_image_parser img.image ≡ ok irs
      → files.missing s (component_dir dir bundle irs) ≡ true
      → files.mkdir_all s (component_dir dir bundle irs) ≡ none
      → convert_images files fresh_name dir bundle (img ∷ images) result s ≡ (err (foreign 8), s)
  unfolding convert_images
  convert-failed dir bundle img images irs result s p m k = rw (convert_images, p, m, k) refl

  pub convert-made :
      (dir bundle : Str) (img : RelatedImage) (images : List RelatedImage) (irs : ImageRef)
      (result : List CopyImage) (s s' : files.State)
      → custom_image_parser img.image ≡ ok irs
      → files.missing s (component_dir dir bundle irs) ≡ true
      → files.mkdir_all s (component_dir dir bundle irs) ≡ some s'
      → convert_images files fresh_name dir bundle (img ∷ images) result s
        ≡ convert_images files fresh_name dir bundle images
            (result ++ copy_of dir bundle img irs ∷ [])
            s'
  unfolding convert_images
  convert-made dir bundle img images irs result s s' p m k = rw (convert_images, p, m, k) refl

  pub convert-error :
      (dir bundle : Str) (img : RelatedImage) (images : List RelatedImage) (result : List CopyImage)
      (s : files.State) (e : Error)
      → custom_image_parser img.image ≡ err e
      → convert_images files fresh_name dir bundle (img ∷ images) result s ≡ (err e, s)
  unfolding convert_images
  convert-error dir bundle img images result s e p = rw (convert_images, p) refl

  pub convert-panic :
      (dir bundle : Str) (img : RelatedImage) (images : List RelatedImage) (result : List CopyImage)
      (s : files.State)
      → custom_image_parser img.image ≡ panic
      → convert_images files fresh_name dir bundle (img ∷ images) result s ≡ (panic, s)
  unfolding convert_images
  convert-panic dir bundle img images result s p = rw (convert_images, p) refl

  pub convert-fuel :
      (dir bundle : Str) (img : RelatedImage) (images : List RelatedImage) (result : List CopyImage)
      (s : files.State)
      → custom_image_parser img.image ≡ out_of_fuel
      → convert_images files fresh_name dir bundle (img ∷ images) result s ≡ (out_of_fuel, s)
  unfolding convert_images
  convert-fuel dir bundle img images result s p = rw (convert_images, p) refl
