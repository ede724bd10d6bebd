-- ===== src/Cli/Run/Order.antt =====
-- What `Run` calls, in which order, and when it cleans up.
use golang_fb_mirror.Base.{
  ◌≡◌, refl, sym, ap, ◌∙◌, subst, true, false, none, some, List, [], ◌∷◌, ◌++◌, map, Result, ok,
  err, panic, out_of_fuel,
}
use mathlib.Core.List.{append_assoc}
use golang_fb_mirror.Base.Text.{Str}
use golang_fb_mirror.Base.Action.{Action, is_ok, call, resume, resume_assoc}
use golang_fb_mirror.Base.Action.Logs.{Failed, Adds, Logs, Logs-call}
use golang_fb_mirror.Batch.{CopyImage}
use golang_fb_mirror.Cli.{merge_images}
use golang_fb_mirror.Cli.Run.{
  Executor, Parts, State, Event, removed, made, collected, worked, Collector, release, operators,
  additional, images_of, logs_dir, dirs_of, make_dirs, cleaning_up, collect, work, run_collectors,
  run,
}

-- After an error the directory of the logs is removed.
abbrev pub ends : Result (Unit {0}) → List Event
ends (err e) = removed logs_dir ∷ []
ends _ = []

-- The collectors come one after the other up to an error, and the worker gets the images of all
-- three in their order.
pub data Gathering : Result (Unit {0}) → List Event → Type 0 where
  release_failed :
      {r : Result (Unit {0})} → Failed r → Gathering r (collected release none ∷ ends r)
  operators_failed :
      {r : Result (Unit {0})} {a : List CopyImage}
      → Failed r
      → Gathering r (collected release (some a) ∷ collected operators none ∷ ends r)
  additional_failed :
      {r : Result (Unit {0})} {a b : List CopyImage}
      → Failed r
      → Gathering r (
          collected release (some a)
          ∷ collected operators (some b)
          ∷ collected additional none
          ∷ ends r)
  gathered :
      {r : Result (Unit {0})} {a b c : List CopyImage}
      → Gathering r (
          collected release (some a)
          ∷ collected operators (some b)
          ∷ collected additional (some c)
          ∷ worked ((a ++ b) ++ c) (is_ok r)
          ∷ ends r)

abbrev pub made_all : List Str → List Event
made_all dirs = map (λ (d : Str). made d true) dirs

-- The directories are made one after the other; an error ends the run, else the rest follows.
pub data Prepared (dirs : List Str) (rest : Result (Unit {0}) → List Event → Type 0)
    : Result (Unit {0}) → List Event → Type 0 where
  stopped :
      (before after : List Str) (dir : Str) {r : Result (Unit {0})}
      → before ++ dir ∷ after ≡ dirs
      → Failed r
      → Prepared dirs rest r (made_all before ++ made dir false ∷ [])
  ready :
      {r : Result (Unit {0})} {t : List Event}
      → rest r t
      → Prepared dirs rest r (made_all dirs ++ t)

module _ (parts : Parts) where
  collect-Logs :
      (P : Result (Unit {0}) → List Event → Type 0) (c : Collector) (ex : Executor)
      (k : List CopyImage → Action (State parts) (Unit {0}))
      → ((r : Result (Unit {0})) → Failed r → P r (collected c none ∷ ends r))
      → ((a : List CopyImage) → Logs (λ r t. P r (collected c (some a) ∷ t)) (k a))
      → Logs P (λ s. resume (collect parts c ex s) k)
  unfolding collect cleaning_up
  collect-Logs P c ex k stop go s = step (parts.collect c ex s.world)
    where
      step :
          (x : Result (List CopyImage) × parts.World)
          → Adds P s (
              resume
                (cleaning_up parts (
                  x.0,
                  record { world = x.1; trace = s.trace ++ collected c (images_of x.0) ∷ [] },
                ))
                k)
      step (ok a, w) =
          let event = collected c (some a) in
          let (t, e, p) = go a (record { world = w; trace = s.trace ++ event ∷ [] }) in
          (event ∷ t, e ∙ append_assoc s.trace (event ∷ []) t, p)
      step (err e, w) = (
        collected c none ∷ removed logs_dir ∷ [],
        append_assoc s.trace (collected c none ∷ []) (removed logs_dir ∷ []),
        stop (err e) tt,
      )
      step (panic, w) = (collected c none ∷ [], refl, stop panic tt)
      step (out_of_fuel, w) = (collected c none ∷ [], refl, stop out_of_fuel tt)

  work-Logs :
      (P : Result (Unit {0}) → List Event → Type 0) (ex : Executor) (images : List CopyImage)
      → ((r : Result (Unit {0})) → P r (worked images (is_ok r) ∷ ends r))
      → Logs P (work parts ex images)
  unfolding work cleaning_up
  work-Logs P ex images h s = step (parts.worker images ex s.world)
    where
      step :
          (x : Result (Unit {0}) × parts.World)
          → Adds P s (
              cleaning_up parts
                (x.0, record { world = x.1; trace = s.trace ++ worked images (is_ok x.0) ∷ [] }))
      step (ok u, w) = (worked images true ∷ [], refl, h (ok u))
      step (err e, w) = (
        worked images false ∷ removed logs_dir ∷ [],
        append_assoc s.trace (worked images false ∷ []) (removed logs_dir ∷ []),
        h (err e),
      )
      step (panic, w) = (worked images false ∷ [], refl, h panic)
      step (out_of_fuel, w) = (worked images false ∷ [], refl, h out_of_fuel)

  run_collectors-Gathering : (ex : Executor) → Logs Gathering (run_collectors parts ex)
  unfolding run_collectors merge_images
  run_collectors-Gathering ex =
      collect-Logs Gathering release ex _ (λ r f. release_failed f)
        (λ a.
          collect-Logs (λ r t. Gathering r (collected release (some a) ∷ t)) operators ex _
            (λ r f. operators_failed f)
            (λ b.
              collect-Logs
                (λ r t. Gathering r (collected release (some a) ∷ collected operators (some b) ∷ t))
                additional ex _ (λ r f. additional_failed f)
                (λ c.
                  work-Logs
                    (λ r t. Gathering r (
                      collected release (some a)
                      ∷ collected operators (some b)
                      ∷ collected additional (some c)
                      ∷ t))
                    ex ((a ++ b) ++ c) (λ r. gathered))))

  made-Prepared :
      (dir : Str) (dirs : List Str) (rest : Result (Unit {0}) → List Event → Type 0)
      (r : Result (Unit {0})) (t : List Event)
      → Prepared dirs rest r t
      → Prepared (dir ∷ dirs) rest r (made dir true ∷ t)
  made-Prepared dir dirs rest r t (stopped before after d e f) =
      stopped (dir ∷ before) after d (ap (◌∷◌ dir) e) f
  made-Prepared dir dirs rest r t (ready p) = ready p

  make_dirs-Prepared :
      (rest : Result (Unit {0}) → List Event → Type 0) (k : Action (State parts) (Unit {0}))
      → Logs rest k
      → (dirs : List Str)
      → Logs (Prepared dirs rest) (λ s. resume (make_dirs parts dirs s) (λ _. k))
  unfolding make_dirs
  make_dirs-Prepared rest k h [] s = let (t, e, p) = h s in (t, e, ready p)
  make_dirs-Prepared rest k h (dir ∷ dirs) s =
      let x = call (parts.make_dir dir) (made dir) s in
      let more : Action (State parts) (Unit {0}) = make_dirs parts dirs in
      subst (Adds (Prepared (dir ∷ dirs) rest) s) (sym (resume_assoc x (λ _. more) (λ _. k))) (
        Logs-call (Prepared (dir ∷ dirs) rest) (parts.make_dir dir) (made dir)
          (λ _ s'. resume (more s') (λ _. k)) (λ r f. stopped [] dirs dir refl f)
          (λ u s'.
            let (t, e, p) = make_dirs-Prepared rest k h dirs s' in
            (t, e, made-Prepared dir dirs rest _ t p))
          s)

  -- `Run` removes the old logs, makes the directories of its mode, and calls the collectors of
  -- releases, operators and additional images in this order. An error stops it at once; one of a
  -- collector or of the worker removes the logs. The worker is called exactly once if all three
  -- collectors return, with their images in order, and it succeeds exactly if `Run` does; else it is
  -- not called.
  pub run-Prepared :
      (ex : Executor)
      → Logs
          (λ r t.
            (t' : List Event) × (t ≡ removed logs_dir ∷ t')
            × Prepared (logs_dir ∷ dirs_of parts ex.mode ex.dir) Gathering r t')
          (run parts ex)
  unfolding run
  run-Prepared ex s =
      let start : State parts = record {
        world = parts.remove_dir logs_dir s.world;
        trace = s.trace ++ removed logs_dir ∷ [];
      } in
      let (t, e, p) =
        make_dirs-Prepared Gathering (run_collectors parts ex) (run_collectors-Gathering ex)
          (logs_dir ∷ dirs_of parts ex.mode ex.dir) start in
      (removed logs_dir ∷ t, e ∙ append_assoc s.trace (removed logs_dir ∷ []) t, (t, refl, p))
