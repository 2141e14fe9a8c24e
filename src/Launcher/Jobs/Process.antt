-- ===== src/Launcher/Jobs/Process.antt =====
-- What `process_job` of proxy/launcher.hpp makes of a job, case by case.
use slsfs.Prelude.{some_inj, Option-cases, ◌⊎◌, ◌⊎◌, Option, ℕ, ◌≡◌, ◌≡◌, inr, inl, none, some}
use slsfs.Launcher.Jobs.{process_job, picked, valid_worker, start_job, reschedule}
use slsfs.Launcher.Pool.{FileToWorker, Job, Launcher, assigned, emplace_binding}

-- The job is started at a valid worker, with the bindings as they were or with a new one, or queued again.
pub process_job-cases :
    (policy : FileToWorker) (j : Job) (s t : Launcher)
    → process_job policy j s ≡ some t
    → ((w : ℕ) × (o : Option ℕ) × (valid_worker o s.workers ≡ some w) × (start_job w j s ≡ t))
      ⊎ (((w : ℕ) × (p : Option ℕ) × (valid_worker p s.workers ≡ some w)
            × (start_job w j (record s {
              fileid_to_worker = emplace_binding j.header.key w s.fileid_to_worker;
            })
                ≡ t))
          ⊎ (reschedule j s ≡ t))
unfolding process_job
process_job-cases policy j s t e =
    elim (Option-cases (valid_worker (assigned policy j.header.key s) s.workers)) [
      | inr (w, q) ↦ inl (w, assigned policy j.header.key s, q, some_inj (rw (q, process_job) at e))
      | inl no_worker ↦ elim (Option-cases (picked policy s)) [
        | inl stuck ↦
            let no : none ≡ some t = rw stuck at (rw (no_worker, process_job) at e) in absurd (cc)
        | inr (p, r) ↦ elim (Option-cases (valid_worker p s.workers)) [
          | inl gone ↦
              inr (inr (some_inj (rw gone at (rw r at (rw (no_worker, process_job) at e)))))
          | inr (w, q) ↦
              inr (inl (w, p, q, some_inj (rw q at (rw r at (rw (no_worker, process_job) at e)))))
        ]
      ]
    ]
