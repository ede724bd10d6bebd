-- ===== src/Collect/Operators/Cached.antt =====
-- Which images of a bundle are copied, by the directories that are there.
use golang_fb_mirror.Base.{
  ◌≡◌, ◌≢◌, ◌⊎◌, sym, ap, ◌∙◌, subst, inl, inr, true, false, some, List, [], ◌∷◌, ◌++◌, Result, ok,
  Bool-cases, Option-cases, arith, All, ok-inj, Result-cases, is_value, is_error, is_panic,
  is_out_of_fuel,
}
use mathlib.Core.List.{append_assoc}
use golang_fb_mirror.Base.Text.{Str}
use golang_fb_mirror.Api.{RelatedImage, ImageRef}
use golang_fb_mirror.Batch.{CopyImage}
use golang_fb_mirror.Names.{custom_image_parser}
use golang_fb_mirror.Base.Action.Logs.{append_nil}
use golang_fb_mirror.Collect.Files.{Files}
use golang_fb_mirror.Collect.Operators.{convert_images}
use golang_fb_mirror.Collect.Operators.Steps.{
  Makes, component_dir, copy_of, convert-cached, convert-failed, convert-made, convert-error,
  convert-panic, convert-fuel,
}

module _ (files : Files) (fresh_name : Str) (makes : Makes files) where
  -- An image that is in the cache: its name parses, and its directory is there.
  abbrev pub IsCached : Str → Str → files.State → RelatedImage → Type 0
  IsCached dir bundle s img =
      (irs : ImageRef) × (custom_image_parser img.image ≡ ok irs)
      × (files.missing s (component_dir dir bundle irs) ≡ false)

  -- A directory that came about when one of the directories `made` was made, as itself or above it
  abbrev pub CameWith : List Str → Str → Type 0
  CameWith [] e = ⊥
  CameWith (d ∷ made) e =
      ((t : files.State) × (t' : files.State) × (files.mkdir_all t d ≡ some t')
        × (files.missing t e ≡ true)
        × (files.missing t' e ≡ false))
      ⊎ CameWith made e

  -- The copies that are chosen for the images, where `made` are the directories of those chosen
  -- before. An image is left out only where its directory was there in `s` or came with one of
  -- them; it is chosen only where it was not in `s` and is none of them.
  pub data Chosen (dir bundle : Str) (s : files.State)
      : List Str → List RelatedImage → List CopyImage → Type 0 where
    none_left : {made : List Str} → Chosen dir bundle s made [] []
    skipped :
        {made : List Str} {img : RelatedImage} {images : List RelatedImage}
        {copies : List CopyImage} (irs : ImageRef)
        → custom_image_parser img.image ≡ ok irs
        → (files.missing s (component_dir dir bundle irs) ≡ false)
          ⊎ CameWith made (component_dir dir bundle irs)
        → Chosen dir bundle s made images copies
        → Chosen dir bundle s made (img ∷ images) copies
    chosen :
        {made : List Str} {img : RelatedImage} {images : List RelatedImage}
        {copies : List CopyImage} {irs : ImageRef}
        → custom_image_parser img.image ≡ ok irs
        → files.missing s (component_dir dir bundle irs) ≡ true
        → All (λ d. d ≢ component_dir dir bundle irs) made
        → Chosen dir bundle s (component_dir dir bundle irs ∷ made) images copies
        → Chosen dir bundle s made
            (img ∷ images)
            (copy_of files fresh_name makes dir bundle img irs ∷ copies)

  abbrev pub Kept : files.State → files.State → Type 0
  Kept s s' = (d : Str) → files.missing s d ≡ false → files.missing s' d ≡ false

  -- What is known of a state that the loop has reached from `s`
  abbrev Reached : files.State → List Str → files.State → Type 0
  Reached s made t =
      Kept s t
      × ((e : Str) → files.missing t e ≡ false → (files.missing s e ≡ false) ⊎ CameWith made e)
      × All (λ d. files.missing t d ≡ false) made

  still_there :
      (t t' : files.State) (made : List Str)
      → Kept t t'
      → All (λ d. files.missing t d ≡ false) made
      → All (λ d. files.missing t' d ≡ false) made
  still_there t t' [] k h = tt
  still_there t t' (d ∷ made) k (m, h) = (k d m, still_there t t' made k h)

  other_dirs :
      (t : files.State) (d : Str) (made : List Str)
      → files.missing t d ≡ true
      → All (λ e. files.missing t e ≡ false) made
      → All (λ e. e ≢ d) made
  other_dirs t d [] m h = tt
  other_dirs t d (e ∷ made) m (f, h) =
      ((λ q. absurd (ground (arith, f, m, ap (files.missing t) q))), other_dirs t d made m h)

  Reached-made :
      (s t t' : files.State) (made : List Str) (d : Str)
      → files.mkdir_all t d ≡ some t'
      → Reached s made t
      → Reached s (d ∷ made) t'
  Reached-made s t t' made d n (k, came, there) =
      let k1 : Kept t t' = λ e f. makes.kept t t' d e n f in
      (
        (λ e f. k1 e (k e f)),
        (λ e f. elim (Bool-cases (files.missing t e)) [
          | inl m ↦ inr (inl (t, t', n, m, f))
          | inr m ↦ elim (came e m) [ inl a ↦ inl a | inr c ↦ inr (inr c) ]
        ]),
        (makes.made t t' d n, still_there t t' made k1 there),
      )

  not_before :
      (s t : files.State) (d : Str) → Kept s t → files.missing t d ≡ true → files.missing s d ≡ true
  not_before s t d k m = elim (Bool-cases (files.missing s d)) [
    | inl h ↦ h
    | inr f ↦ absurd (ground (arith, m, k d f))
  ]

  -- What is known after the loop has returned.
  abbrev pub Converted :
      Str
      → Str
      → List RelatedImage
      → List CopyImage
      → files.State
      → List CopyImage
      → files.State
      → Type 0
  Converted dir bundle images result s copies s' =
      (new : List CopyImage) × (copies ≡ result ++ new)
      × Chosen dir bundle s [] images new
      × All (IsCached dir bundle s') images
      × Kept s s'

  abbrev IsOk : Result (List CopyImage) × files.State → Type 0
  IsOk (ok copies, s) = Unit
  IsOk _ = ⊥

  bad : {r r' : Result (List CopyImage) × files.State} → r ≡ r' → IsOk r' → IsOk r
  bad e h = subst IsOk (sym e) h

  -- The same from a state that the loop has reached
  convert-Reached :
      (dir bundle : Str) (images : List RelatedImage) (result : List CopyImage) (s t : files.State)
      (made : List Str) (copies : List CopyImage) (s' : files.State)
      → Reached s made t
      → convert_images files fresh_name dir bundle images result t ≡ (ok copies, s')
      → (new : List CopyImage) × (copies ≡ result ++ new)
        × Chosen dir bundle s made images new
        × All (IsCached dir bundle s') images
        × Kept t s'
  unfolding convert_images
  convert-Reached dir bundle [] result s t made copies s' r h =
      let e : result ≡ copies =
        ok-inj (ap (λ (x : Result (List CopyImage) × files.State). x.0) h) in
      let e' : t ≡ s' = ap (λ (x : Result (List CopyImage) × files.State). x.1) h in
      (
        [],
        sym e ∙ append_nil result,
        none_left,
        tt,
        λ d f. subst (λ u. files.missing u d ≡ false) e' f,
      )
  convert-Reached dir bundle (img ∷ images) result s t made copies s' r h =
      elim (Result-cases (custom_image_parser img.image)) [
        | is_error e p ↦ absurd (
            bad (sym (convert-error files fresh_name makes dir bundle img images result t e p) ∙ h)
              tt)
        | is_panic p ↦ absurd (
            bad (sym (convert-panic files fresh_name makes dir bundle img images result t p) ∙ h)
              tt)
        | is_out_of_fuel p ↦ absurd (
            bad (sym (convert-fuel files fresh_name makes dir bundle img images result t p) ∙ h) tt)
        | is_value irs p ↦
            let d = component_dir dir bundle irs in
            elim (Bool-cases (files.missing t d)) [
              | inr m ↦
                  let (new, e, c, a, k) =
                    convert-Reached dir bundle images result s t made copies s' r (
                      sym (
                        convert-cached files fresh_name makes dir bundle img images irs result t p
                          m)
                      ∙ h) in
                  (new, e, skipped irs p (r.1 d m) c, ((irs, p, k d m), a), k)
              | inl m ↦ elim (Option-cases (files.mkdir_all t d)) [
                | inl n ↦ absurd (
                    bad
                      (sym (
                          convert-failed files fresh_name makes dir bundle img images irs result t p
                            m n)
                        ∙ h)
                      tt)
                | inr (t1, n) ↦
                    let copy = copy_of files fresh_name makes dir bundle img irs in
                    let (new, e, c, a, k) =
                      convert-Reached dir bundle images (result ++ copy ∷ []) s t1 (d ∷ made) copies
                        s' (Reached-made s t t1 made d n r)
                        (sym (
                            convert-made files fresh_name makes dir bundle img images irs result t
                              t1 p m n)
                          ∙ h) in
                    (
                      copy ∷ new,
                      e ∙ append_assoc result (copy ∷ []) new,
                      chosen p (not_before s t d r.0 m) (other_dirs t d made m r.2) c,
                      ((irs, p, k d (makes.made t t1 d n)), a),
                      λ d' f. k d' (makes.kept t t1 d d' n f),
                    )
              ]
            ]
      ]

  -- If the loop over the images of a bundle returns, the name of each image has three parts or more
  -- and its directory is there; no directory has gone; and the new copies are those of images in the
  -- list, in its order. The directory of a copied image was missing at the start and is not that of
  -- an image copied before; that of an image that is not copied was there at the start, or came
  -- about when the directory of an image copied before was made.
  pub convert_images-Converted :
      (dir bundle : Str) (images : List RelatedImage) (result : List CopyImage) (s : files.State)
      (copies : List CopyImage) (s' : files.State)
      → convert_images files fresh_name dir bundle images result s ≡ (ok copies, s')
      → Converted dir bundle images result s copies s'
  convert_images-Converted dir bundle images result s copies s' h =
      convert-Reached dir bundle images result s s [] copies s' ((λ d f. f), (λ e f. inl f), tt) h
