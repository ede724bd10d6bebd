-- ===== src/Cli/Program/Copied.antt =====
-- What it means that the program ends without an error.
use golang_fb_mirror.Base.{
  ℕ, ◌≡◌, refl, sym, ap, ◌∙◌, false, List, ◌∷◌, ◌++◌, Result, ok, err, panic, out_of_fuel,
  if◌then◌else◌, Bool-cases, inl, inr, arith,
}
use golang_fb_mirror.Base.Action.{resume-eq-ok}
use golang_fb_mirror.Batch.{CopyImage, Exit, done, failed, any_failed, worker}
use golang_fb_mirror.Batch.Copies.Reference.{worker-any_failed}
use golang_fb_mirror.Cli.Run.{
  Executor, Parts, Collector, release, operators, additional, State, collect, work, run,
  run_collectors, cleaning_up, make_dirs, remove_all, logs_dir, dirs_of,
}
use golang_fb_mirror.Cli.{merge_images}
use golang_fb_mirror.Cli.Program.{Environment, collect_images, parts_of, returned}

module _ (parts : Parts) where
  cleaning_up-ok :
      {A : Type 0} (x : Result A × State parts) (a : A) (s' : State parts)
      → cleaning_up parts x ≡ (ok a, s')
      → x ≡ (ok a, s')
  unfolding cleaning_up
  cleaning_up-ok (ok b, s) a s' h = h
  cleaning_up-ok (err e, s) a s' h = absurd (ground arith)
  cleaning_up-ok (panic, s) a s' h = absurd (ground arith)
  cleaning_up-ok (out_of_fuel, s) a s' h = absurd (ground arith)

  -- A collector that `Run` calls has returned its images.
  collect-ok :
      (c : Collector) (ex : Executor) (images : List CopyImage) (s s' : State parts)
      → collect parts c ex s ≡ (ok images, s')
      → parts.collect c ex s.world ≡ (ok images, s'.world)
  unfolding collect
  collect-ok c ex images s s' h =
      let (r, w) = parts.collect c ex s.world in
      let h' = cleaning_up-ok _ images s' h in λ i. ((h' i).0, (h' i).1.world)

  work-ok :
      (ex : Executor) (images : List CopyImage) (s s' : State parts)
      → work parts ex images s ≡ (ok tt, s')
      → parts.worker images ex s.world ≡ (ok tt, s'.world)
  unfolding work
  work-ok ex images s s' h = let h' = cleaning_up-ok _ tt s' h in λ i. ((h' i).0, (h' i).1.world)

  -- The three collectors have returned their images one after the other, and the worker has been
  -- called with all of them and returned nil.
  abbrev pub Worked : Executor → Type 0
  Worked ex =
      (w1 : parts.World) × (a : List CopyImage) × (w2 : parts.World) × (b : List CopyImage)
      × (w3 : parts.World) × (c : List CopyImage) × (w4 : parts.World) × (w5 : parts.World)
      × (parts.collect release ex w1 ≡ (ok a, w2))
      × (parts.collect operators ex w2 ≡ (ok b, w3))
      × (parts.collect additional ex w3 ≡ (ok c, w4))
      × (parts.worker ((a ++ b) ++ c) ex w4 ≡ (ok tt, w5))

  run_collectors-Worked :
      (ex : Executor) (s s' : State parts) → run_collectors parts ex s ≡ (ok tt, s') → Worked ex
  unfolding run_collectors merge_images
  run_collectors-Worked ex s s' h =
      let (a, s1, e1, k1) = resume-eq-ok (collect parts release ex s) _ h in
      let (b, s2, e2, k2) = resume-eq-ok (collect parts operators ex s1) _ k1 in
      let (c, s3, e3, k3) = resume-eq-ok (collect parts additional ex s2) _ k2 in
      (
        s.world,
        a,
        s1.world,
        b,
        s2.world,
        c,
        s3.world,
        s'.world,
        collect-ok release ex a s s1 e1,
        collect-ok operators ex b s1 s2 e2,
        collect-ok additional ex c s2 s3 e3,
        work-ok ex ((a ++ b) ++ c) s3 s' k3,
      )

  run-Worked : (ex : Executor) (s s' : State parts) → run parts ex s ≡ (ok tt, s') → Worked ex
  unfolding run
  run-Worked ex s s' h =
      let (u, s1, e1, k1) =
        resume-eq-ok
          (make_dirs parts (logs_dir ∷ dirs_of parts ex.mode ex.dir) (remove_all parts logs_dir s))
          (λ _. run_collectors parts ex) h in
      run_collectors-Worked ex s1 s' k1

module _ (env : Environment) (fuel : ℕ) where
  returned-done : (e : Exit) → returned e ≡ ok tt → e ≡ done
  unfolding returned
  returned-done done h = refl
  returned-done e h = absurd (ground arith)

  worker-copied :
      (images : List CopyImage)
      → returned (worker env.copies 2 images).0 ≡ ok tt
      → any_failed env.copies images ≡ false
  worker-copied images h = elim (Bool-cases (any_failed env.copies images)) [
    | inr f ↦ f
    | inl t ↦
        let e : (worker env.copies 2 images).0 ≡ failed =
          worker-any_failed env.copies 0 images ∙ ap (λ b. if b then failed else done) t in
        absurd (exits (sym (returned-done _ h) ∙ e))
  ]
    where
      exits : done ≡ failed → ⊥
      exits h = cc

  -- If `Run` of the whole program returns without an error, whatever the interface of pkg/manifest,
  -- the copier of index images and the server do, then the collectors of releases, of operators and
  -- of additional images have each returned their images, one after the other, and the copy of
  -- every one of these images has succeeded.
  pub run-Copied :
      (ex : Executor) (s s' : State (parts_of env fuel))
      → run (parts_of env fuel) ex s ≡ (ok tt, s')
      → (w1 : env.files.State) × (a : List CopyImage) × (w2 : env.files.State) × (b : List
          CopyImage)
        × (w3 : env.files.State) × (c : List CopyImage) × (w4 : env.files.State) × (collect_images
              env fuel release ex w1
            ≡ (ok a, w2))
        × (collect_images env fuel operators ex w2 ≡ (ok b, w3))
        × (collect_images env fuel additional ex w3 ≡ (ok c, w4))
        × (any_failed env.copies ((a ++ b) ++ c) ≡ false)
  unfolding parts_of
  run-Copied ex s s' h =
      let (w1, a, w2, b, w3, c, w4, w5, e1, e2, e3, e) = run-Worked (parts_of env fuel) ex s s' h in
      (
        w1,
        a,
        w2,
        b,
        w3,
        c,
        w4,
        e1,
        e2,
        e3,
        worker-copied ((a ++ b) ++ c) (ap (λ (x : Result (Unit {0}) × env.files.State). x.0) e),
      )
