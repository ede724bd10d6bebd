-- ===== src/Batch/Copies/Reference.antt =====
-- `Worker` against a plain specification: one pass over all images.
use mathlib.Core.List.{flatten, append-nil}
use golang_fb_mirror.Base.{
  ℕ, suc, ◌≡◌, refl, ap, sym, ◌∙◌, Bool, true, false, ◌||◌, List, [], ◌∷◌, ◌++◌, All, if◌then◌else◌,
  arith,
}
use golang_fb_mirror.Batch.{CopyImage, Exit, done, failed, any_failed, worker}
use golang_fb_mirror.Batch.Copies.{Log, IsSound, worker-IsSound}

module _ (copies : CopyImage → Bool) where
  any_failed-append :
      (xs ys : List CopyImage)
      → any_failed copies (xs ++ ys) ≡ (any_failed copies xs || any_failed copies ys)
  unfolding any_failed
  any_failed-append [] ys = refl
  any_failed-append (x ∷ xs) ys = ground (arith, any_failed-append xs ys)

  any_failed-flatten :
      (log : Log)
      → All (λ b. any_failed copies b ≡ false) log
      → any_failed copies (flatten log) ≡ false
  unfolding any_failed flatten
  any_failed-flatten [] h = refl
  any_failed-flatten (b ∷ log) (h, hs) =
      any_failed-append b (flatten log) ∙ ground (arith, h, any_failed-flatten log hs)

  flatten-last :
      (before : Log) (last : List CopyImage)
      → any_failed copies last ≡ true
      → any_failed copies (flatten (before ++ last ∷ [])) ≡ true
  unfolding any_failed flatten
  flatten-last [] last h = ap (any_failed copies) (append-nil last) ∙ h
  flatten-last (b ∷ before) last h =
      any_failed-append b (flatten (before ++ last ∷ []))
      ∙ ground (arith, flatten-last before last h)

  -- What a sound log says of all images.
  sound-any_failed :
      (e : Exit) (log : Log) (images : List CopyImage)
      → IsSound copies (e, log) images []
      → e ≡ (if any_failed copies images then failed else done)
  sound-any_failed done log images (s, c, a) =
      let h : any_failed copies images ≡ false =
        ap (any_failed copies) (sym c ∙ append-nil (flatten log)) ∙ any_failed-flatten log s in
      rw h refl
  sound-any_failed failed log images ((before, last, e, f, ok), (rest, c), a) =
      let h : any_failed copies images ≡ true =
        ap (any_failed copies) (sym c)
        ∙ any_failed-append (flatten log) rest
        ∙ ground (arith, ap (λ l. any_failed copies (flatten l)) e, flatten-last before last f) in
      rw h refl
  sound-any_failed e log images (s, c, a) = absurd s

  -- With fuel for two calls, `Worker`, with its batches, its wait groups, its indices and its
  -- recursion, has the result of one pass over all images: the error if some copy fails, and nil
  -- otherwise.
  pub worker-any_failed :
      (fuel : ℕ) (images : List CopyImage)
      → (worker copies (suc (suc fuel)) images).0
        ≡ (if any_failed copies images then failed else done)
  worker-any_failed fuel images =
      let r = worker copies (suc (suc fuel)) images in
      sound-any_failed r.0 r.1 images (worker-IsSound copies fuel images)
