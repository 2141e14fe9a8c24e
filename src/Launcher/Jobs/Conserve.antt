-- ===== src/Launcher/Jobs/Conserve.antt =====
-- No job is lost: each step keeps it among those that are completed, wait, or are at a valid worker.
use slsfs.Launcher.Jobs.Process.{process_job-cases}
use slsfs.Prelude.{
  subst, some_inj, ◌≡◌, ◌≡◌, get_elem?, ◌≤◌, ◌+◌, arith, Option, List, All, ◌≤◌, ◌+◌, ℕ, refl, suc,
  zero, inr, inl, some, ◌∷◌, [],
}
use slsfs.Bytes.{Bytes}
use slsfs.Launcher.Pool.{
  FileToWorker, Job, DfWorker, Launcher, emplace_job, modify, emplace_binding,
}
use slsfs.Launcher.Jobs.{reschedule, process_job, start_job, valid_worker}
use slsfs.Launcher.Jobs.Copies.{
  at_worker-le-running, one, copies, at_worker, running, Named, copies-append, running-modify,
  valid_worker-some, emplace_job-copies,
}

-- How often a job is completed, waits, or is at a valid worker.
abbrev pub total : ℕ → Launcher → ℕ
total k s = copies k s.completed + copies k s.posted + running k s.workers

-- The job is not lost on the way from one state to another that got `n` more of it, nor doubled.
abbrev pub Keeps : ℕ → ℕ → Launcher → Launcher → Type 0
Keeps k n s s' = (total k s ≤ total k s') × (n ≤ total k s') × (total k s' ≤ total k s + n)

module _ (ident : Bytes → Bytes → Bytes → ℕ) where
  abbrev pub NamedWorker : DfWorker → Type 0
  NamedWorker d = All (Named ident) d.started_jobs

  -- The numbers of the jobs in the launcher are determined by their packets.
  pub record AllNamed (s : Launcher) : Type 0 where
    pub posted_named : All (Named ident) s.posted
    pub workers_named : All NamedWorker s.workers

  pub All-get :
      (ds : List DfWorker) (w : ℕ) (d : DfWorker)
      → All NamedWorker ds
      → get_elem? ds w ≡ some d
      → NamedWorker d
  All-get [] w d h e = absurd (cc)
  All-get (x ∷ ds) zero d h e = let p : x ≡ d = some_inj e in subst NamedWorker p h.0
  All-get (x ∷ ds) (suc w) d h e = All-get ds w d h.1 e

  pub All-modify :
      (w : ℕ) (f : DfWorker → DfWorker) (ds : List DfWorker)
      → ((d : DfWorker) → NamedWorker d → NamedWorker (f d))
      → All NamedWorker ds
      → All NamedWorker (modify w f ds)
  unfolding modify
  All-modify w f [] g h = tt
  All-modify zero f (d ∷ ds) g h = (g d h.0, h.1)
  All-modify (suc w) f (d ∷ ds) g h = (h.0, All-modify w f ds g h.1)

  -- A job that starts at a valid worker is there, and nothing else changes in number.
  start_job-Keeps :
      (k w : ℕ) (j : Job) (s : Launcher) (o : Option ℕ)
      → AllNamed s
      → Named ident j
      → valid_worker o s.workers ≡ some w
      → Keeps k (one k j) s (start_job w j s)
  unfolding start_job
  start_job-Keeps k w j s o h n e =
      let (d, at, on) = valid_worker-some o s.workers w e in
      let f : DfWorker → DfWorker = λ d. record d { started_jobs = emplace_job j d.started_jobs } in
      let m = running-modify k w f s.workers d at in
      let some_there = at_worker-le-running k w s.workers d at in
      let (lo, there, hi) =
        emplace_job-copies ident k j d.started_jobs n (All-get s.workers w d h.workers_named at) in
      let old : at_worker k d ≡ copies k d.started_jobs = rw on refl in
      let new : at_worker k (f d) ≡ copies k (emplace_job j d.started_jobs) = rw on refl in
      (omega arith, omega arith, omega arith)

  pub reschedule-Keeps : (k : ℕ) (j : Job) (s : Launcher) → Keeps k (one k j) s (reschedule j s)
  unfolding reschedule
  reschedule-Keeps k j s =
      let a = copies-append k s.posted (j ∷ []) in (omega arith, omega arith, omega arith)

  pub process_job-Keeps :
      (policy : FileToWorker) (k : ℕ) (j : Job) (s t : Launcher)
      → AllNamed s
      → Named ident j
      → process_job policy j s ≡ some t
      → Keeps k (one k j) s t
  process_job-Keeps policy k j s t h n e = elim (process_job-cases policy j s t e) [
    | inl (w, o, on, q) ↦ subst (Keeps k (one k j) s) q (start_job-Keeps k w j s o h n on)
    | inr (inl (w, p, on, q)) ↦ subst (Keeps k (one k j) s) q (
        start_job-Keeps k w j
          (record s { fileid_to_worker = emplace_binding j.header.key w s.fileid_to_worker }) p
          (record { posted_named = h.posted_named; workers_named = h.workers_named }) n on)
    | inr (inr q) ↦ subst (Keeps k (one k j) s) q (reschedule-Keeps k j s)
  ]
