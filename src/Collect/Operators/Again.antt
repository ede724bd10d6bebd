-- ===== src/Collect/Operators/Again.antt =====
-- The images of a bundle that the collector has seen before.
use golang_fb_mirror.Base.{◌≡◌, refl, ◌∙◌, List, [], ◌∷◌, ok, All}
use golang_fb_mirror.Base.Text.{Str}
use golang_fb_mirror.Api.{RelatedImage}
use golang_fb_mirror.Batch.{CopyImage}
use golang_fb_mirror.Collect.Files.{Files}
use golang_fb_mirror.Collect.Operators.{convert_images}
use golang_fb_mirror.Collect.Operators.Steps.{Makes, convert-cached}
use golang_fb_mirror.Collect.Operators.Cached.{IsCached, convert_images-Converted}

module _ (files : Files) (fresh_name : Str) (makes : Makes files) where
  copied_before :
      (dir bundle : Str) (images : List RelatedImage) (result : List CopyImage) (s : files.State)
      → All (IsCached files fresh_name makes dir bundle s) images
      → convert_images files fresh_name dir bundle images result s ≡ (ok result, s)
  unfolding convert_images
  copied_before dir bundle [] result s h = refl
  copied_before dir bundle (img ∷ images) result s ((irs, p, m), hs) =
      convert-cached files fresh_name makes dir bundle img images irs result s p m
      ∙ copied_before dir bundle images result s hs

  -- Images are copied once: after the loop over a bundle has returned, a second one over the same
  -- bundle copies nothing and changes nothing.
  pub convert_images-again :
      (dir bundle : Str) (images : List RelatedImage) (copies : List CopyImage) (s s' : files.State)
      → convert_images files fresh_name dir bundle images [] s ≡ (ok copies, s')
      → convert_images files fresh_name dir bundle images [] s' ≡ (ok [], s')
  convert_images-again dir bundle images copies s s' h =
      let (new, e, c, cached, k) =
        convert_images-Converted files fresh_name makes dir bundle images [] s copies s' h in
      copied_before dir bundle images [] s' cached
