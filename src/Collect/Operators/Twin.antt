-- ===== src/Collect/Operators/Twin.antt =====
-- Two images of one namespace in a bundle.
use golang_fb_mirror.Base.{
  ◌≡◌, sym, ap, ◌∙◌, inl, inr, List, [], ◌∷◌, ◌++◌, ok, Bool-cases, Option-cases,
}
use golang_fb_mirror.Base.Text.{Str, codes, join}
use golang_fb_mirror.Api.{RelatedImage, ImageRef}
use golang_fb_mirror.Batch.{CopyImage}
use golang_fb_mirror.Names.{custom_image_parser}
use golang_fb_mirror.Collect.Files.{Files}
use golang_fb_mirror.Collect.Operators.{convert_images}
use golang_fb_mirror.Collect.Operators.Steps.{
  Makes, component_dir, copy_of, convert-cached, convert-failed, convert-made,
}

module _ (files : Files) (fresh_name : Str) (makes : Makes files) where
  -- An image is not copied if the image before it in its bundle has the same namespace: the
  -- collector does the same without it.
  pub convert_images-twin :
      (dir bundle : Str) (img twin : RelatedImage) (images : List RelatedImage)
      (irs twin_irs : ImageRef) (result : List CopyImage) (s : files.State)
      → custom_image_parser img.image ≡ ok irs
      → custom_image_parser twin.image ≡ ok twin_irs
      → twin_irs.namespace ≡ irs.namespace
      → convert_images files fresh_name dir bundle (img ∷ twin ∷ images) result s
        ≡ convert_images files fresh_name dir bundle (img ∷ images) result s
  convert_images-twin dir bundle img twin images irs twin_irs result s p q e =
      let d = component_dir dir bundle irs in
      let same : component_dir dir bundle twin_irs ≡ d =
        ap (λ n. join (dir ∷ bundle ∷ n ∷ []) (codes "/")) e in
      elim (Bool-cases (files.missing s d)) [
        | inr m ↦
            convert-cached files fresh_name makes dir bundle img (twin ∷ images) irs result s p m
            ∙ convert-cached files fresh_name makes dir bundle twin images twin_irs result s q
                (ap (files.missing s) same ∙ m)
            ∙ sym (convert-cached files fresh_name makes dir bundle img images irs result s p m)
        | inl m ↦ elim (Option-cases (files.mkdir_all s d)) [
          | inl k ↦
              convert-failed files fresh_name makes dir bundle img (twin ∷ images) irs result s p m
                k
              ∙ sym (convert-failed files fresh_name makes dir bundle img images irs result s p m k)
          | inr (s', k) ↦
              convert-made files fresh_name makes dir bundle img (twin ∷ images) irs result s s' p m
                k
              ∙ convert-cached files fresh_name makes dir bundle twin images twin_irs
                  (result ++ copy_of files fresh_name makes dir bundle img irs ∷ []) s' q
                  (ap (files.missing s') same ∙ makes.made s s' d k)
              ∙ sym
                  (convert-made files fresh_name makes dir bundle img images irs result s s' p m k)
        ]
      ]
