-- ===== src/Batch.antt =====
-- pkg/batch/worker.go: the images are copied in batches of eight concurrent goroutines.
pub mod Chunks
pub mod Copies
pub mod Race
use golang_fb_mirror.Base.{
  ℕ, zero, suc, ◌+◌, ◌*◌, ◌/◌, ◌%◌, ◌<◌, Bool, true, false, Option, none, some, List, [], ◌∷◌, ◌++◌,
  if◌then◌else◌, ltb, length, get_elem?, drop, ◌||◌, not,
}
use golang_fb_mirror.Base.Text.{Str}

-- `v1alpha3.CopyImageSchema`
pub record CopyImage : Type 0 where
  pub source : Str
  pub destination : Str

-- `BATCH_SIZE`
abbrev pub batch_limit : ℕ
batch_limit = 8

pub record BatchSchema : Type 0 where
  pub items : ℕ
  pub count : ℕ
  pub batch_size : ℕ
  pub batch_index : ℕ
  pub remainder : ℕ

unfoldable pub plan : ℕ → BatchSchema
plan imgs =
    if ltb imgs batch_limit
    then record { items = imgs; count = 1; batch_size = imgs; batch_index = 0; remainder = 0 }
    else record {
      items = imgs;
      count = imgs / batch_limit;
      batch_size = batch_limit;
      batch_index = 0;
      remainder = imgs % batch_limit;
    }

-- How `Worker` ends: nil, its error, an index out of range or a negative `WaitGroup`, a `Wait`
-- that never returns; or the model ran out of fuel.
pub data Exit : Type 0 where
  done failed panicked blocked no_fuel : Exit

-- `images[index]` for the goroutines of one batch
unfoldable pub collect : ℕ → ℕ → List CopyImage → Option (List CopyImage)
collect zero index images = some []
collect (suc n) index images = elim (get_elem? images index) [
  | none ↦ none
  | some x ↦ elim (collect n (suc index) images) [ none ↦ none | some xs ↦ some (x ∷ xs) ]
]

-- `wg.Wait()` once every goroutine of a batch has called `wg.Done()`
unfoldable pub wait : ℕ → ℕ → Exit
wait wg goroutines =
    if ltb goroutines wg then blocked else if ltb wg goroutines then panicked else done

module _ (copies : CopyImage → Bool) where
  -- Whether `errArray` holds an error after a batch. The goroutines append to it without a lock, so
  -- that an error may overwrite another one, but not leave the array empty.
  unfoldable pub any_failed : List CopyImage → Bool
  any_failed [] = false
  any_failed (x ∷ xs) = not (copies x) || any_failed xs

  -- What one batch leaves behind, before the next one.
  unfoldable pub after_batch :
      Exit → List CopyImage → Exit × List (List CopyImage) → Exit × List (List CopyImage)
  unfolding any_failed
  after_batch done batch (exit, log) =
      if any_failed batch then (failed, batch ∷ []) else (exit, batch ∷ log)
  after_batch stopped batch rest = (stopped, batch ∷ [])

  -- `for i := 0; i < b.Count; i++ { … }` with the rounds left, `i`, and the counter of the
  -- `WaitGroup`; the second result lists the batches whose copies were started.
  unfoldable pub batches : BatchSchema → List CopyImage → ℕ → ℕ → ℕ → Exit × List (List CopyImage)
  unfolding collect wait after_batch
  batches b images zero i wg = (done, [])
  batches b images (suc rounds) i wg =
      let rest = batches b images rounds (i + 1) (if ltb 1 b.count then batch_limit else 0) in
      elim (collect b.batch_size (i * b.batch_size) images) [
        | none ↦ (panicked, [])
        | some batch ↦ after_batch (wait wg (length batch)) batch rest
      ]

  -- The remainder is handled by a call of `Worker` itself, after the batches.
  unfoldable pub with_remainder :
      ℕ → Exit × List (List CopyImage) → Exit × List (List CopyImage) → Exit × List (List CopyImage)
  with_remainder remainder (done, log) (exit, rest) =
      if ltb 0 remainder then (exit, log ++ rest) else (done, log)
  with_remainder remainder (stopped, log) rest = (stopped, log)

  unfoldable pub worker : ℕ → List CopyImage → Exit × List (List CopyImage)
  unfolding plan batches with_remainder
  worker zero images = (no_fuel, [])
  worker (suc fuel) images =
      let b = plan (length images) in
      let rest = worker fuel (drop (b.count * batch_limit) images) in
      with_remainder b.remainder (batches b images b.count 0 b.batch_size) rest
