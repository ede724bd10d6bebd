-- ===== src/Batch/Chunks.antt =====
-- The batches are the consecutive pieces of the list of images.
use golang_fb_mirror.Base.{
  ℕ, zero, suc, ◌+◌, ◌*◌, ◌≤◌, ◌<◌, ◌≡◌, refl, ap, sym, ◌∙◌, Bool, some, List, [], ◌∷◌,
  if◌then◌else◌, ltb, length, get_elem?, drop, take, arith, length-drop,
}
use golang_fb_mirror.Batch.{
  CopyImage, BatchSchema, Exit, done, failed, collect, wait, any_failed, after_batch, batches,
  batch_limit,
}

drop-nil {ℓ} : {A : Type ℓ} (n : ℕ) → drop {A = A} n [] ≡ []
drop-nil zero = refl
drop-nil (suc n) = refl

pub drop-drop {ℓ} :
    {A : Type ℓ} (a b c : ℕ) (xs : List A) → a + b ≡ c → drop b (drop a xs) ≡ drop c xs
drop-drop zero b c xs e = let e' : b ≡ c = omega arith in rw e' refl
drop-drop (suc a) b c [] e = drop-nil b ∙ sym (drop-nil c)
drop-drop (suc a) b zero (x ∷ xs) e = absurd (omega arith)
drop-drop (suc a) b (suc c) (x ∷ xs) e = drop-drop a b c xs (omega arith)

pub length-take {ℓ} : {A : Type ℓ} (n : ℕ) (xs : List A) → n ≤ length xs → length (take n xs) ≡ n
length-take zero xs h = refl
length-take (suc n) [] h = absurd (omega arith)
length-take (suc n) (x ∷ xs) h = ap suc (length-take n xs (omega arith))

drop-get {ℓ} :
    {A : Type ℓ} (i : ℕ) (xs : List A)
    → i < length xs
    → (x : A) × (get_elem? xs i ≡ some x) × (drop i xs ≡ x ∷ drop (suc i) xs)
drop-get i [] h = absurd (omega arith)
drop-get zero (x ∷ xs) h = (x, refl, refl)
drop-get (suc i) (x ∷ xs) h = drop-get i xs (omega arith)

-- The images of a batch, read one index after the other.
pub collect-eq-take :
    (n i : ℕ) (images : List CopyImage)
    → i + n ≤ length images
    → collect n i images ≡ some (take n (drop i images))
unfolding collect
collect-eq-take zero i images h = refl
collect-eq-take (suc n) i images h =
    let (x, e, e') = drop-get i images (omega arith) in
    let ih = collect-eq-take n (suc i) images (omega arith) in rw e' (rw (e, collect, ih) refl)

room : (i n count size : ℕ) {m : ℕ} → i + suc n ≡ count → count * size ≤ m → i * size + size ≤ m
room i n count size c h = grind arith

-- Another round follows only if there are several batches, all of the same size.
counter :
    (i n count size : ℕ)
    → i + suc n ≡ count
    → (1 < count → size ≡ batch_limit)
    → 0 < n
    → (if ltb 1 count then batch_limit else 0) ≡ size
counter i n count size c s pos = ground (arith, s (omega arith))

module _ (copies : CopyImage → Bool) where
  -- The batches as pieces of the images that are left, without indices and counters.
  pub pieces : ℕ → ℕ → List CopyImage → Exit × List (List CopyImage)
  pieces zero size images = (done, [])
  pieces (suc n) size images =
      let (exit, log) = pieces n size (drop size images) in
      if any_failed copies (take size images)
      then (failed, take size images ∷ [])
      else (exit, take size images ∷ log)

  pub pieces-zero : (size : ℕ) (images : List CopyImage) → pieces 0 size images ≡ (done, [])
  unfolding pieces
  pieces-zero size images = refl

  pub pieces-suc :
      (n size : ℕ) (images : List CopyImage)
      → pieces (suc n) size images ≡ (
          if any_failed copies (take size images) then (failed, take size images ∷ []) else (
            (pieces n size (drop size images)).0,
            take size images ∷ (pieces n size (drop size images)).1,
          ))
  unfolding pieces
  pieces-suc n size images = refl

  wait-done : (wg n : ℕ) → wg ≡ n → wait wg n ≡ done
  unfolding wait
  wait-done wg n e = ground arith

  after_batch-done :
      (batch : List CopyImage) (rest : Exit × List (List CopyImage))
      → after_batch copies done batch rest
        ≡ (if any_failed copies batch then (failed, batch ∷ []) else (rest.0, batch ∷ rest.1))
  unfolding after_batch
  after_batch-done batch rest = refl

  batches-suc :
      (b : BatchSchema) (images : List CopyImage) (n i wg : ℕ) (batch : List CopyImage)
      → collect b.batch_size (i * b.batch_size) images ≡ some batch
      → batches copies b images (suc n) i wg
        ≡ after_batch copies
            (wait wg (length batch))
            batch
            (batches copies b images n (i + 1) (if ltb 1 b.count then batch_limit else 0))
  unfolding batches
  batches-suc b images n i wg batch e = rw (e, batches) refl

  -- With a counter that matches the goroutines, the loop with indices goes through the pieces.
  pub batches-eq-pieces :
      (b : BatchSchema) (images : List CopyImage) (n i wg : ℕ)
      → (0 < n → wg ≡ b.batch_size)
      → i + n ≡ b.count
      → b.count * b.batch_size ≤ length images
      → (1 < b.count → b.batch_size ≡ batch_limit)
      → batches copies b images n i wg ≡ pieces n b.batch_size (drop (i * b.batch_size) images)
  batches-eq-pieces b images zero i wg w c h s = (unfold batches pieces in refl)
  batches-eq-pieces b images (suc n) i wg w c h s =
      let size = b.batch_size in
      let fits : i * size + size ≤ length images = room i n b.count size c h in
      let batch = take size (drop (i * size) images) in
      let full : length batch ≡ size =
        length-take size (drop (i * size) images) (rw length-drop (omega arith)) in
      let ih =
        batches-eq-pieces b images n (i + 1) (if ltb 1 b.count then batch_limit else 0)
          (counter i n b.count size c s) (omega arith) h s in
      let next : drop size (drop (i * size) images) ≡ drop ((i + 1) * size) images =
        drop-drop (i * size) size ((i + 1) * size) images (omega arith) in
      batches-suc b images n i wg batch (collect-eq-take size (i * size) images fits)
      ∙ ap
          (λ w'.
            after_batch copies w' batch
              (batches copies b images n (i + 1) (if ltb 1 b.count then batch_limit else 0)))
          (wait-done wg (length batch) (w (omega arith) ∙ sym full))
      ∙ ap (after_batch copies done batch) (ih ∙ ap (pieces n size) (sym next))
      ∙ after_batch-done batch (pieces n size (drop size (drop (i * size) images)))
      ∙ sym (pieces-suc n size (drop (i * size) images))
