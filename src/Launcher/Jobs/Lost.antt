-- ===== src/Launcher/Jobs/Lost.antt =====
-- Scheduled jobs over any sequence of callbacks.
use slsfs.Prelude.{
  ==_refl, arith, ◌+◌, ◌+◌, >>=-some, ◌≤◌, some_inj, ◌≤◌, ◌≡◌, All, ◌≡◌, ℕ, List, refl, some, ◌∷◌,
  [],
}
use slsfs.Bytes.{Bytes}
use slsfs.Launcher.Pool.{FileToWorker, Job, Launcher}
use slsfs.Launcher.Jobs.{Event, step, run}
use slsfs.Launcher.Jobs.Copies.{one, copies, running}
use slsfs.Launcher.Jobs.Conserve.{total, AllNamed}
use slsfs.Launcher.Jobs.Steps.{step-Counts, IsClean, NamedEvent, scheduled_by}
use slsfs.Launcher.Jobs.Names.{step-AllNamed}

-- Every callback of a run is clean where it happens.
abbrev pub IsCleanRun : FileToWorker → List Event → Launcher → Type 0
IsCleanRun policy [] s = Unit
IsCleanRun policy (e ∷ es) s =
    IsClean e s × ((t : Launcher) → step policy e s ≡ some t → IsCleanRun policy es t)

module _ (ident : Bytes → Bytes → Bytes → ℕ) (policy : FileToWorker) where
  run_keeps :
      (k : ℕ) (es : List Event) (s s' : Launcher)
      → AllNamed ident s
      → All (NamedEvent ident) es
      → run policy es s ≡ some s'
      → 1 ≤ total k s
      → 1 ≤ total k s'
  unfolding run
  run_keeps k [] s s' n g e h = rw (← some_inj e) h
  run_keeps k (e ∷ es) s s' n g r h =
      let (t, r1, r2) = >>=-some (step policy e s) (run policy es) s' r in
      run_keeps k es t s' (step-AllNamed ident policy e s t g.0 r1 n) g.1 r2
        ((step-Counts ident policy k e s t n r1).0 (omega arith))

  run_counts :
      (k : ℕ) (es : List Event) (s s' : Launcher)
      → AllNamed ident s
      → All (NamedEvent ident) es
      → IsCleanRun policy es s
      → All (λ e. scheduled_by k e ≡ 0) es
      → run policy es s ≡ some s'
      → total k s ≡ 1
      → total k s' ≡ 1
  unfolding run
  run_counts k [] s s' n g c once e h = rw (← some_inj e) h
  run_counts k (e ∷ es) s s' n g c once r h =
      let (t, r1, r2) = >>=-some (step policy e s) (run policy es) s' r in
      let q = (step-Counts ident policy k e s t n r1).1 c.0 (omega (arith, once.0)) in
      run_counts k es t s' (step-AllNamed ident policy e s t g.0 r1 n) g.1 (c.1 t r1) once.1 r2
        (omega (arith, once.0))

  -- A job that is scheduled is never lost, if the key, salt and sequence of a packet determine its job:
  -- after any callbacks that return, workers that close and timers that fail included, it is completed, waits to be
  -- processed, or is at a valid worker.
  pub no_job_lost :
      (j : Job) (es : List Event) (s s' : Launcher)
      → AllNamed ident s
      → All (NamedEvent ident) (Event.scheduled j ∷ es)
      → run policy (Event.scheduled j ∷ es) s ≡ some s'
      → 1 ≤ copies j.id s'.completed + copies j.id s'.posted + running j.id s'.workers
  unfolding run
  no_job_lost j es s s' n g r =
      let (t, r1, r2) = >>=-some (step policy (Event.scheduled j) s) (run policy es) s' r in
      let mine : one j.id j ≡ 1 = rw (==_refl j.id) refl in
      run_keeps j.id es t s' (step-AllNamed ident policy (Event.scheduled j) s t g.0 r1 n) g.1 r2
        ((step-Counts ident policy j.id (Event.scheduled j) s t n r1).0 (omega (arith, mine)))

  -- A job that is scheduled once and is new is answered at most once, and at any time it is in just one
  -- place: completed, waiting, or at one valid worker. Here the key, salt and sequence of a packet
  -- determine its job, a worker closes or answers only while it is valid, and no timer fails.
  pub answered_at_most_once :
      (j : Job) (es : List Event) (s s' : Launcher)
      → AllNamed ident s
      → All (NamedEvent ident) (Event.scheduled j ∷ es)
      → IsCleanRun policy (Event.scheduled j ∷ es) s
      → All (λ e. scheduled_by j.id e ≡ 0) es
      → total j.id s ≡ 0
      → run policy (Event.scheduled j ∷ es) s ≡ some s'
      → (copies j.id s'.completed ≤ 1)
        × (copies j.id s'.completed + copies j.id s'.posted + running j.id s'.workers ≡ 1)
  unfolding run
  answered_at_most_once j es s s' n g c once new r =
      let (t, r1, r2) = >>=-some (step policy (Event.scheduled j) s) (run policy es) s' r in
      let mine : one j.id j ≡ 1 = rw (==_refl j.id) refl in
      let first =
        (step-Counts ident policy j.id (Event.scheduled j) s t n r1).1 c.0 (omega (arith, mine)) in
      let all =
        run_counts j.id es t s' (step-AllNamed ident policy (Event.scheduled j) s t g.0 r1 n) g.1
          (c.1 t r1) once r2 (omega (arith, mine)) in
      (omega arith, all)
