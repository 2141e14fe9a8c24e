-- ===== src/Launcher/Jobs/Closed.antt =====
-- Workers that close without a table: a socket that fails, or that the other side closed.
use slsfs.Prelude.{
  ◌⊎◌, ◌⊎◌, append_assoc, append-nil, ◌∙◌, ◌∙◌, ap, sym, ◌≤◌, ◌≤◌, ◌++◌, ◌≡◌, get_elem?, ◌≡◌, ℕ,
  List, refl, false, none, some, ◌∷◌, [],
}
use slsfs.Launcher.Pool.{FileToWorker, Job, DfWorker, Launcher, modify}
use slsfs.Launcher.Jobs.{
  Event, step, run, reschedule, close, take_back, invalidate, reschedule_all, on_worker_reschedule,
}
use slsfs.Launcher.Jobs.Copies.{get_elem?-modify}

reschedule_all-posted :
    (js : List Job) (s : Launcher)
    → ((reschedule_all js s).posted ≡ s.posted ++ js)
      × ((reschedule_all js s).workers ≡ s.workers)
      × ((reschedule_all js s).completed ≡ s.completed)
      × ((reschedule_all js s).worker_set ≡ s.worker_set)
unfolding reschedule_all on_worker_reschedule reschedule
reschedule_all-posted [] s = (sym (append-nil s.posted), refl, refl, refl)
reschedule_all-posted (j ∷ js) s =
    let (p, ws, c, set) = reschedule_all-posted js (on_worker_reschedule j s) in
    (p ∙ append_assoc s.posted (j ∷ []) js, ws, c, set)

-- What a close does to the jobs that wait, to the worker, and to the set of workers.
close-posted :
    (w : ℕ) (s : Launcher) (d : DfWorker)
    → get_elem? s.workers w ≡ some d
    → (t : Launcher) × (close w none s ≡ some t)
      × (t.posted ≡ s.posted ++ d.started_jobs)
      × (get_elem? t.workers w ≡ some (record d { valid = false }))
      × (t.completed ≡ s.completed)
unfolding close invalidate take_back
close-posted w s d at =
    let f : DfWorker → DfWorker = λ d. record d { valid = false } in
    let here : get_elem? (modify w f s.workers) w ≡ some (f d) =
      get_elem?-modify w f s.workers d at in
    let t = reschedule_all d.started_jobs (invalidate w s) in
    let (p, ws, c, set) = reschedule_all-posted d.started_jobs (invalidate w s) in
    (t, rw (here, close, take_back) refl, p, ap (λ l. get_elem? l w) ws ∙ here, c)

-- A worker that closes twice without a table, as on an error of a write and then of the read that waits,
-- has each of its jobs put into the queue twice.
pub closed_twice_runs_twice :
    (policy : FileToWorker) (w : ℕ) (s : Launcher) (d : DfWorker)
    → get_elem? s.workers w ≡ some d
    → (t : Launcher) × (run policy (Event.closed w none ∷ Event.closed w none ∷ []) s ≡ some t)
      × (t.posted ≡ (s.posted ++ d.started_jobs) ++ d.started_jobs)
unfolding run step
closed_twice_runs_twice policy w s d at =
    let (t, e, p, here, c) = close-posted w s d at in
    let (u, e', p', here', c') = close-posted w t (record d { valid = false }) here in
    (u, rw e (rw e' refl), p' ∙ ap (λ l. l ++ d.started_jobs) p)
