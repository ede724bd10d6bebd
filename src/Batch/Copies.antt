-- ===== src/Batch/Copies.antt =====
-- What `Worker` promises: each image is copied once, in batches, up to the first batch that fails.
pub mod Reference
use mathlib.Core.List.{flatten, append_assoc, append-nil}
use golang_fb_mirror.Base.{
  ℕ, zero, suc, ◌*◌, ◌≤◌, ◌<◌, ◌/◌, ◌%◌, length-drop, ◌≡◌, ◌⊎◌, inl, inr, refl, ap, sym, ◌∙◌, Bool,
  true, false, List, [], ◌∷◌, ◌++◌, if◌then◌else◌, length, drop, take, arith, Bool-cases, All,
  take-append-drop, subst,
}
use golang_fb_mirror.Batch.{
  CopyImage, BatchSchema, Exit, done, failed, plan, any_failed, with_remainder, batches, worker,
  batch_limit,
}
use golang_fb_mirror.Batch.Chunks.{pieces, pieces-zero, pieces-suc, drop-drop, batches-eq-pieces}

abbrev pub Log : Type 0
Log = List (List CopyImage)

-- The images of the batches stand at the front of the list; after `done` all but `tail` do.
abbrev pub Covers : Exit → Log → List CopyImage → List CopyImage → Type 0
Covers done log images tail = flatten log ++ tail ≡ images
Covers e log images tail = (rest : List CopyImage) × (flatten log ++ rest ≡ images)

abbrev pub AreSmall : Log → Type 0
AreSmall = All (λ b. length b ≤ batch_limit)

module _ (copies : CopyImage → Bool) where
  -- What is true of the batches that were started: after `failed` the last of them holds a copy
  -- that failed and no other does; after `done` none does.
  abbrev pub Started : Exit → Log → Type 0
  Started done log = All (λ b. any_failed copies b ≡ false) log
  Started failed log =
      (before : Log) × (last : List CopyImage) × (log ≡ before ++ last ∷ [])
      × (any_failed copies last ≡ true)
      × All (λ b. any_failed copies b ≡ false) before
  Started e log = ⊥

  abbrev pub IsSound : Exit × Log → List CopyImage → List CopyImage → Type 0
  IsSound r images tail = Started r.0 r.1 × Covers r.0 r.1 images tail × AreSmall r.1

  -- A batch without a failed copy in front.
  IsSound-cons :
      (e : Exit) (log : Log) (b rest tail : List CopyImage)
      → any_failed copies b ≡ false
      → length b ≤ batch_limit
      → IsSound (e, log) rest tail
      → IsSound (e, b ∷ log) (b ++ rest) tail
  unfolding flatten
  IsSound-cons done log b rest tail h small (s, c, a) =
      ((h, s), append_assoc b (flatten log) tail ∙ ap (◌++◌ b) c, (small, a))
  IsSound-cons failed log b rest tail h small ((before, last, e, f, ok), (r, c), a) = (
    (b ∷ before, last, ap (◌∷◌ b) e, f, (h, ok)),
    (r, append_assoc b (flatten log) r ∙ ap (◌++◌ b) c),
    (small, a),
  )
  IsSound-cons e log b rest tail h small (s, c, a) = absurd s

  IsSound-failed :
      (b rest tail : List CopyImage)
      → any_failed copies b ≡ true
      → length b ≤ batch_limit
      → IsSound (failed, b ∷ []) (b ++ rest) tail
  unfolding flatten
  IsSound-failed b rest tail h small =
      (([], b, refl, h, tt), (rest, ap (λ c. c ++ rest) (append-nil b)), (small, tt))

  length-take-le : (n : ℕ) (xs : List CopyImage) → length (take n xs) ≤ n
  length-take-le zero xs = omega arith
  length-take-le (suc n) [] = omega arith
  length-take-le (suc n) (x ∷ xs) = omega (arith, length-take-le n xs)

  piece-IsSound :
      (n size : ℕ) (images : List CopyImage)
      → size ≤ batch_limit
      → IsSound
          (pieces copies n size (drop size images))
          (drop size images)
          (drop (suc n * size) images)
      → IsSound
          (pieces copies (suc n) size images)
          (take size images ++ drop size images)
          (drop (suc n * size) images)
  piece-IsSound n size images h rest =
      let batch = take size images in
      let small : length batch ≤ batch_limit = omega (arith, length-take-le size images) in
      let r = pieces copies n size (drop size images) in
      let tail = drop (suc n * size) images in
      elim (Bool-cases (any_failed copies batch)) [
        | inl bad ↦
            subst (λ r'. IsSound r' (batch ++ drop size images) tail)
              (sym (
                pieces-suc copies n size images
                ∙ ap (λ t. if t then (failed, batch ∷ []) else (r.0, batch ∷ r.1)) bad))
              (IsSound-failed batch (drop size images) tail bad small)
        | inr ok ↦
            subst (λ r'. IsSound r' (batch ++ drop size images) tail)
              (sym (
                pieces-suc copies n size images
                ∙ ap (λ t. if t then (failed, batch ∷ []) else (r.0, batch ∷ r.1)) ok))
              (IsSound-cons r.0 r.1 batch (drop size images) tail ok small rest)
      ]

  pieces-IsSound :
      (n size : ℕ) (images : List CopyImage)
      → size ≤ batch_limit
      → IsSound (pieces copies n size images) images (drop (n * size) images)
  unfolding flatten
  pieces-IsSound zero size images h =
      let z : 0 * size ≡ 0 = omega arith in
      subst (λ r. IsSound r images (drop (0 * size) images)) (sym (pieces-zero copies size images))
        (tt, ap (λ k. drop k images) z, tt)
  pieces-IsSound (suc n) size images h =
      let ih = pieces-IsSound n size (drop size images) h in
      let e : drop (n * size) (drop size images) ≡ drop (suc n * size) images =
        drop-drop size (n * size) (suc n * size) images (omega arith) in
      subst (λ i. IsSound (pieces copies (suc n) size images) i (drop (suc n * size) images))
        (take-append-drop size images)
        (piece-IsSound n size images h
          (subst (IsSound (pieces copies n size (drop size images)) (drop size images)) e ih))

  -- Batches without a failed copy in front of others.
  IsSound-append :
      (log : Log) (e : Exit) (images tail : List CopyImage) (log' : Log) (tail' : List CopyImage)
      → IsSound (done, log) images tail
      → IsSound (e, log') tail tail'
      → IsSound (e, log ++ log') images tail'
  unfolding flatten
  IsSound-append [] e images tail log' tail' (s, c, a) h =
      subst (λ i. IsSound (e, log') i tail') c h
  IsSound-append (b ∷ log) e images tail log' tail' ((ok, s), c, (small, a)) h =
      let ih = IsSound-append log e (flatten log ++ tail) tail log' tail' (s, refl, a) h in
      subst (λ i. IsSound (e, b ∷ (log ++ log')) i tail')
        (sym (append_assoc b (flatten log) tail) ∙ c)
        (IsSound-cons e (log ++ log') b (flatten log ++ tail) tail' ok small ih)

  with_remainder-suc :
      (n : ℕ) (log : Log) (e : Exit) (log' : Log)
      → with_remainder copies (suc n) (done, log) (e, log') ≡ (e, log ++ log')
  unfolding with_remainder
  with_remainder-suc n log e log' = ground arith

  IsSound-with_remainder :
      (remainder : ℕ) (e : Exit) (log : Log) (rest : Exit × Log) (images tail : List CopyImage)
      → (remainder ≡ 0 → tail ≡ [])
      → IsSound (e, log) images tail
      → (0 < remainder → IsSound rest tail [])
      → IsSound (with_remainder copies remainder (e, log) rest) images []
  unfolding with_remainder
  IsSound-with_remainder zero done log rest images tail e s r =
      subst (IsSound (done, log) images) (e refl) s
  IsSound-with_remainder (suc n) done log (e', log') images tail e s r =
      subst (λ r'. IsSound r' images []) (sym (with_remainder-suc n log e' log'))
        (IsSound-append log e' images tail log' [] s (r (omega arith)))
  IsSound-with_remainder n failed log rest images tail e s r = s
  IsSound-with_remainder n e' log rest images tail e s r = absurd s.0

  plan-small :
      (n : ℕ)
      → n < 8
      → plan n ≡ record { items = n; count = 1; batch_size = n; batch_index = 0; remainder = 0 }
  unfolding plan
  plan-small n h = ground arith

  plan-large :
      (n : ℕ)
      → 8 ≤ n
      → plan n
        ≡ record { items = n; count = n / 8; batch_size = 8; batch_index = 0; remainder = n % 8 }
  unfolding plan
  plan-large n h = ground arith

  worker-suc :
      (fuel : ℕ) (images : List CopyImage) (b : BatchSchema)
      → plan (length images) ≡ b
      → worker copies (suc fuel) images
        ≡ with_remainder copies b.remainder
            (batches copies b images b.count 0 b.batch_size)
            (worker copies fuel (drop (b.count * batch_limit) images))
  unfolding worker
  worker-suc fuel images b e =
      ap
        (λ b'.
          with_remainder copies b'.remainder (batches copies b' images b'.count 0 b'.batch_size)
            (worker copies fuel (drop (b'.count * batch_limit) images)))
        e

  all-batches :
      (b : BatchSchema) (images : List CopyImage)
      → b.count * b.batch_size ≤ length images
      → (1 < b.count → b.batch_size ≡ batch_limit)
      → batches copies b images b.count 0 b.batch_size ≡ pieces copies b.count b.batch_size images
  all-batches b images h s =
      let z : 0 * b.batch_size ≡ 0 = omega arith in
      batches-eq-pieces copies b images b.count 0 b.batch_size (λ _. refl) (omega arith) h s
      ∙ ap (λ k. pieces copies b.count b.batch_size (drop k images)) z

  drop-all : (n : ℕ) (images : List CopyImage) → n ≡ length images → drop n images ≡ []
  drop-all zero [] h = refl
  drop-all zero (x ∷ xs) h = absurd (omega arith)
  drop-all (suc n) [] h = refl
  drop-all (suc n) (x ∷ xs) h = drop-all n xs (omega arith)

  small-IsSound :
      (fuel : ℕ) (images : List CopyImage)
      → length images < 8
      → IsSound (worker copies (suc fuel) images) images []
  small-IsSound fuel images h =
      let n = length images in
      let b : BatchSchema = record {
        items = n;
        count = 1;
        batch_size = n;
        batch_index = 0;
        remainder = 0;
      } in
      let e = all-batches b images (omega arith) (λ c. absurd (omega arith)) in
      let r = pieces copies 1 n images in
      let rest = worker copies fuel (drop (1 * batch_limit) images) in
      subst (λ r'. IsSound r' images [])
        (sym (
          worker-suc fuel images b (plan-small n h) ∙ ap (λ r'. with_remainder copies 0 r' rest) e))
        (IsSound-with_remainder 0 r.0 r.1 rest images (drop (1 * n) images)
          (λ _. drop-all (1 * n) images (omega arith)) (pieces-IsSound 1 n images (omega arith))
          (λ c. absurd (omega arith)))

  large-IsSound :
      (fuel : ℕ) (images : List CopyImage)
      → 8 ≤ length images
      → IsSound (worker copies (suc (suc fuel)) images) images []
  large-IsSound fuel images h =
      let n = length images in
      let b : BatchSchema = record {
        items = n;
        count = n / 8;
        batch_size = 8;
        batch_index = 0;
        remainder = n % 8;
      } in
      let e = all-batches b images (omega arith) (λ _. refl) in
      let r = pieces copies (n / 8) 8 images in
      let tail = drop (n / 8 * 8) images in
      let rest = worker copies (suc fuel) tail in
      subst (λ r'. IsSound r' images [])
        (sym (
          worker-suc (suc fuel) images b (plan-large n h)
          ∙ ap (λ r'. with_remainder copies (n % 8) r' rest) e))
        (IsSound-with_remainder (n % 8) r.0 r.1 rest images tail
          (λ z. drop-all (n / 8 * 8) images (omega arith))
          (pieces-IsSound (n / 8) 8 images (omega arith))
          (λ _. small-IsSound fuel tail (rw length-drop (omega arith))))

  -- With fuel for two calls, `Worker` returns, without a panic and without waiting for ever: with
  -- the error if some copy of
  -- a batch failed, and then no later batch was started; with nil otherwise, and then each image
  -- was copied exactly once. No batch has more than eight images.
  pub worker-IsSound :
      (fuel : ℕ) (images : List CopyImage)
      → IsSound (worker copies (suc (suc fuel)) images) images []
  worker-IsSound fuel images =
      let c : (length images < 8) ⊎ (8 ≤ length images) = omega arith in
      elim c [ inl h ↦ small-IsSound (suc fuel) images h | inr h ↦ large-IsSound fuel images h ]
