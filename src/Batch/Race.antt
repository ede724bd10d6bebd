-- ===== src/Batch/Race.antt =====
-- The goroutines of one batch (pkg/batch/worker.go). Each calls `Mirror.Run`, and one whose copy
-- fails does `errArray = append(errArray, err)` with no lock: it reads the slice and writes it back
-- at a later step, so that what others wrote in between may be lost. The steps of different
-- goroutines come in any order.
use golang_fb_mirror.Base.{
  ◌≡◌, ◌≢◌, ◌⊎◌, inl, inr, refl, ap, sym, ◌∙◌, subst, Bool, true, false, not, ◌||◌, List, [], ◌∷◌,
  ◌++◌, map, arith, ⊎_elim,
}
use golang_fb_mirror.Batch.{CopyImage, any_failed}

-- Where a goroutine stands: before the end of its copy, after a failed copy, after reading the
-- slice, and after `wg.Done()`, with or without an append.
pub data Phase : Type 0 where
  running failing : Phase
  holding : List CopyImage → Phase
  copied appended : Phase

-- The slice `errArray` is a list of the images whose copy failed; a goroutine is its image and where
-- it stands.
module _ (copies : CopyImage → Bool) where
  -- What one goroutine does in one step to the slice and to itself.
  pub data Act (c : CopyImage) : List CopyImage → Phase → List CopyImage → Phase → Type 0 where
    succeed : {es : List CopyImage} → copies c ≡ true → Act c es running es copied
    fail : {es : List CopyImage} → copies c ≡ false → Act c es running es failing
    read : {es : List CopyImage} → Act c es failing es (holding es)
    write : {es old : List CopyImage} → Act c es (holding old) (old ++ c ∷ []) appended

  -- One of the goroutines makes a step.
  pub data Step
      : List CopyImage
        → List (CopyImage × Phase)
        → List CopyImage
        → List (CopyImage × Phase)
        → Type 0 where
    here :
        {c : CopyImage} {es es' : List CopyImage} {p p' : Phase} {ts : List (CopyImage × Phase)}
        → Act c es p es' p'
        → Step es ((c, p) ∷ ts) es' ((c, p') ∷ ts)
    there :
        {c : CopyImage} {p : Phase} {es es' : List CopyImage} {ts ts' : List (CopyImage × Phase)}
        → Step es ts es' ts'
        → Step es ((c, p) ∷ ts) es' ((c, p) ∷ ts')

  pub data Run (batch : List CopyImage) : List CopyImage → List (CopyImage × Phase) → Type 0 where
    begin : Run batch [] (map (λ (c : CopyImage). (c, running)) batch)
    next :
        {es es' : List CopyImage} {ts ts' : List (CopyImage × Phase)}
        → Run batch es ts
        → Step es ts es' ts'
        → Run batch es' ts'

  abbrev pub IsDone : Phase → Type 0
  IsDone copied = Unit
  IsDone appended = Unit
  IsDone _ = ⊥

  -- What a phase says of the copy and of the slice.
  abbrev pub Fits : List CopyImage → CopyImage → Phase → Type 0
  Fits es c running = Unit
  Fits es c failing = copies c ≡ false
  Fits es c (holding old) = copies c ≡ false
  Fits es c copied = copies c ≡ true
  Fits es c appended = (copies c ≡ false) × (es ≢ [])

  abbrev pub AllFit : List CopyImage → List (CopyImage × Phase) → Type 0
  AllFit es [] = Unit
  AllFit es ((c, p) ∷ ts) = Fits es c p × AllFit es ts

  -- Some goroutine has appended.
  abbrev pub Appended : List (CopyImage × Phase) → Type 0
  Appended [] = ⊥
  Appended ((c, appended) ∷ ts) = Unit
  Appended ((c, p) ∷ ts) = Appended ts

  abbrev pub AllDone : List (CopyImage × Phase) → Type 0
  AllDone [] = Unit
  AllDone ((c, p) ∷ ts) = IsDone p × AllDone ts

  snoc-nonempty : (old : List CopyImage) (c : CopyImage) → old ++ c ∷ [] ≢ []
  snoc-nonempty [] c e = cc
  snoc-nonempty (x ∷ old) c e = cc

  Act-nonempty :
      (c : CopyImage) (es es' : List CopyImage) (p p' : Phase)
      → Act c es p es' p'
      → es ≢ []
      → es' ≢ []
  Act-nonempty c es es' p p' (succeed h) n = n
  Act-nonempty c es es' p p' (fail h) n = n
  Act-nonempty c es es' p p' read n = n
  Act-nonempty c es es' p p' (write {old}) n = snoc-nonempty old c

  Step-nonempty :
      (es es' : List CopyImage) (ts ts' : List (CopyImage × Phase))
      → Step es ts es' ts'
      → es ≢ []
      → es' ≢ []
  Step-nonempty es es' ts ts' (here {c} {p = q} {p' = q'} a) n = Act-nonempty c es es' q q' a n
  Step-nonempty es es' ts ts' (there {c} {p} {ts = us} {ts' = us'} s) n =
      Step-nonempty es es' us us' s n

  Fits-mono :
      (es es' : List CopyImage) (c : CopyImage) (p : Phase)
      → (es ≢ [] → es' ≢ [])
      → Fits es c p
      → Fits es' c p
  Fits-mono es es' c running up h = tt
  Fits-mono es es' c failing up h = h
  Fits-mono es es' c (holding old) up h = h
  Fits-mono es es' c copied up h = h
  Fits-mono es es' c appended up (h, n) = (h, up n)

  AllFit-mono :
      (es es' : List CopyImage) (ts : List (CopyImage × Phase))
      → (es ≢ [] → es' ≢ [])
      → AllFit es ts
      → AllFit es' ts
  AllFit-mono es es' [] up h = tt
  AllFit-mono es es' ((c, p) ∷ ts) up (h, hs) =
      (Fits-mono es es' c p up h, AllFit-mono es es' ts up hs)

  Act-Fits :
      (c : CopyImage) (es es' : List CopyImage) (p p' : Phase)
      → Act c es p es' p'
      → Fits es c p
      → Fits es' c p'
  Act-Fits c es es' p p' (succeed h) f = h
  Act-Fits c es es' p p' (fail h) f = h
  Act-Fits c es es' p p' read f = f
  Act-Fits c es es' p p' (write {old}) f = (f, snoc-nonempty old c)

  Step-AllFit :
      (es es' : List CopyImage) (ts ts' : List (CopyImage × Phase))
      → Step es ts es' ts'
      → AllFit es ts
      → AllFit es' ts'
  Step-AllFit es es' ts ts' (here {c} {p = q} {p' = q'} {ts = us} a) (f, fs) =
      (Act-Fits c es es' q q' a f, AllFit-mono es es' us (Act-nonempty c es es' q q' a) fs)
  Step-AllFit es es' ts ts' (there {c} {p} {ts = us} {ts' = us'} s) (f, fs) =
      (Fits-mono es es' c p (Step-nonempty es es' us us' s) f, Step-AllFit es es' us us' s fs)

  -- The slice is empty, or some goroutine has appended.
  abbrev pub Written : List CopyImage → List (CopyImage × Phase) → Type 0
  Written es ts = (es ≡ []) ⊎ Appended ts

  Appended-cons :
      (c : CopyImage) (p : Phase) (ts : List (CopyImage × Phase))
      → Appended ts
      → Appended ((c, p) ∷ ts)
  Appended-cons c running ts h = h
  Appended-cons c failing ts h = h
  Appended-cons c (holding old) ts h = h
  Appended-cons c copied ts h = h
  Appended-cons c appended ts h = tt

  Appended-cases :
      (c : CopyImage) (p : Phase) (ts : List (CopyImage × Phase))
      → Appended ((c, p) ∷ ts)
      → (p ≡ appended) ⊎ Appended ts
  Appended-cases c running ts h = inr h
  Appended-cases c failing ts h = inr h
  Appended-cases c (holding old) ts h = inr h
  Appended-cases c copied ts h = inr h
  Appended-cases c appended ts h = inl refl

  Written-cons :
      (es : List CopyImage) (c : CopyImage) (p : Phase) (ts : List (CopyImage × Phase))
      → Written es ts
      → Written es ((c, p) ∷ ts)
  Written-cons es c p ts (inl e) = inl e
  Written-cons es c p ts (inr a) = inr (Appended-cons c p ts a)

  Step-Written :
      (es es' : List CopyImage) (ts ts' : List (CopyImage × Phase))
      → Step es ts es' ts'
      → Written es ts
      → Written es' ts'
  Step-Written es es' ts ts' (here (succeed h)) w = w
  Step-Written es es' ts ts' (here (fail h)) w = w
  Step-Written es es' ts ts' (here read) w = w
  Step-Written es es' ts ts' (here write) w = inr tt
  Step-Written es es' ts ts' (there {c} {p} {ts = us} {ts' = us'} s) (inl e) =
      Written-cons es' c p us' (Step-Written es es' us us' s (inl e))
  Step-Written es es' ts ts' (there {c} {p} {ts = us} {ts' = us'} s) (inr a) =
      elim (Appended-cases c p us a) [
        | inl e ↦ inr (subst (λ q. Appended ((c, q) ∷ us')) (sym e) tt)
        | inr b ↦ Written-cons es' c p us' (Step-Written es es' us us' s (inr b))
      ]

  Step-images :
      (es es' : List CopyImage) (ts ts' : List (CopyImage × Phase))
      → Step es ts es' ts'
      → map (λ (t : CopyImage × Phase). t.0) ts' ≡ map (λ (t : CopyImage × Phase). t.0) ts
  Step-images es es' ts ts' (here a) = refl
  Step-images es es' ts ts' (there {c} {p} {ts = us} {ts' = us'} s) =
      ap (◌∷◌ c) (Step-images es es' us us' s)

  begin-AllFit : (batch : List CopyImage) → AllFit [] (map (λ (c : CopyImage). (c, running)) batch)
  begin-AllFit [] = tt
  begin-AllFit (c ∷ batch) = (tt, begin-AllFit batch)

  begin-images :
      (batch : List CopyImage)
      → map (λ (t : CopyImage × Phase). t.0) (map (λ (c : CopyImage). (c, running)) batch) ≡ batch
  begin-images [] = refl
  begin-images (c ∷ batch) = ap (◌∷◌ c) (begin-images batch)

  -- In every state that a batch can reach, in whatever order its goroutines make their steps: the
  -- goroutines are those of the batch, in its order; one that has failed or appended has a copy that
  -- fails, and one that is done without an append has a copy that succeeds; the slice is not empty
  -- once a goroutine has appended, and empty before.
  pub Run-invariant :
      (batch es : List CopyImage) (ts : List (CopyImage × Phase))
      → Run batch es ts
      → AllFit es ts × Written es ts × (map (λ (t : CopyImage × Phase). t.0) ts ≡ batch)
  Run-invariant batch es ts begin = (begin-AllFit batch, inl refl, begin-images batch)
  Run-invariant batch es ts (next {es = es0} {ts = ts0} r s) =
      let (f, w, i) = Run-invariant batch es0 ts0 r in
      (
        Step-AllFit es0 es ts0 ts s f,
        Step-Written es0 es ts0 ts s w,
        Step-images es0 es ts0 ts s ∙ i,
      )

  any_failed-cons :
      (c : CopyImage) (cs : List CopyImage)
      → any_failed copies (c ∷ cs) ≡ (not (copies c) || any_failed copies cs)
  unfolding any_failed
  any_failed-cons c cs = refl

  -- What the finished goroutines show.
  abbrev pub Outcome : List CopyImage → List (CopyImage × Phase) → Bool → Type 0
  Outcome es ts b = ((b ≡ true) × (es ≢ [])) ⊎ ((b ≡ false) × ¬ Appended ts)

  done-Outcome :
      (es : List CopyImage) (ts : List (CopyImage × Phase))
      → AllDone ts
      → AllFit es ts
      → Outcome es ts (any_failed copies (map (λ (t : CopyImage × Phase). t.0) ts))
  done-Outcome es [] d f = inr ((unfold any_failed in refl), λ a. a)
  done-Outcome es ((c, running) ∷ ts) (d, ds) f = absurd d
  done-Outcome es ((c, failing) ∷ ts) (d, ds) f = absurd d
  done-Outcome es ((c, holding old) ∷ ts) (d, ds) f = absurd d
  done-Outcome es ((c, copied) ∷ ts) (d, ds) (h, fs) =
      let e = any_failed-cons c (map (λ (t : CopyImage × Phase). t.0) ts) in
      elim (done-Outcome es ts ds fs) [
        | inl (b, n) ↦ inl (ground (arith, e, h, b), n)
        | inr (b, n) ↦ inr (ground (arith, e, h, b), n)
      ]
  done-Outcome es ((c, appended) ∷ ts) (d, ds) ((h, n), fs) =
      let e = any_failed-cons c (map (λ (t : CopyImage × Phase). t.0) ts) in
      inl (ground (arith, e, h), n)

  -- In whatever order the goroutines of a batch make their steps: once all of them are done, the
  -- errors are not empty if some copy failed, and empty otherwise. Errors may be lost, but not the
  -- fact that there was one, which is what `Worker` tests.
  pub Run-any_failed :
      (batch es : List CopyImage) (ts : List (CopyImage × Phase))
      → Run batch es ts
      → AllDone ts
      → ((any_failed copies batch ≡ true) × (es ≢ []))
        ⊎ ((any_failed copies batch ≡ false) × (es ≡ []))
  Run-any_failed batch es ts r d =
      let (f, w, i) = Run-invariant batch es ts r in
      elim (done-Outcome es ts d f) [
        | inl (b, n) ↦ inl (ap (any_failed copies) (sym i) ∙ b, n)
        | inr (b, n) ↦
            inr (ap (any_failed copies) (sym i) ∙ b, ⊎_elim (λ e. e) (λ a. absurd (n a)) w)
      ]
