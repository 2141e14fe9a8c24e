-- ===== src/Tests/Jobs.antt =====
-- The launcher with one worker and one job.
use slsfs.Cache.Table.{same_bytes}
use slsfs.Launcher.Jobs.{
  set_state, start_job, seen_by_policy, picked, valid_worker, Event, step, run, schedule,
  process_job, close, take_back, invalidate, finish_job, on_worker_response,
}
use slsfs.Launcher.Jobs.Lost.{no_job_lost, answered_at_most_once, IsCleanRun}
use slsfs.Launcher.Jobs.Bind.{stale_binding_stays}
use slsfs.Launcher.Jobs.Closed.{closed_twice_runs_twice}
use slsfs.Launcher.Jobs.Copies.{copies, running}
use slsfs.Launcher.Launch.{WorkerLaunch}
use slsfs.Launcher.Assign.{lowest_from, get_available_worker}
use slsfs.Launcher.Pool.{
  emplace_binding, assigned, FileToWorker, erase_job, emplace_job, modify, find_job, find_binding,
  pull, Job, JobState, Launcher, Sent,
}
use slsfs.Proxy.Header.{packet_header_full_key_compare, PacketHeader}
use slsfs.Prelude.{
  ◌⊎◌, ◌⊎◌, ℕ, ◌+◌, ◌+◌, false, true, none, some, ◌∷◌, [], ◌≡◌, ◌≤◌, refl, sym, ap, subst, some_inj,
}

abbrev pub header_j : PacketHeader
header_j = record {
  type = 5;
  key = 1 ∷ 2 ∷ [];
  sequence = 3 ∷ [];
  random_salt = 4 ∷ [];
  datasize = 0;
}

abbrev pub job_j : Job
job_j = record { id = 7; header = header_j }

abbrev job_k : Job
job_k = record { id = 8; header = record header_j { sequence = 5 ∷ [] } }

-- `lowest_load`, which has no file in transfer.
abbrev pub lowest : FileToWorker
lowest = record {
  is_transferring = λ ns key. false;
  available = λ ns ws. some (get_available_worker ws);
}

-- A policy that picks no worker.
abbrev nobody : FileToWorker
nobody = record { is_transferring = λ ns key. false; available = λ ns ws. some none }

-- No job yet, and one worker that is valid.
abbrev pub idle : Launcher
idle = record {
  workers = record { valid = true; started_jobs = [] } ∷ [];
  worker_set = (0, record { host = 127 ∷ 0 ∷ 0 ∷ 1 ∷ []; port = 2000 }) ∷ [];
  fileid_to_worker = [];
  transfer_requests = [];
  posted = [];
  completed = [];
  answers = [];
  states = λ k. JobState.registered;
  sent = [];
  notices = [];
}

abbrev working : Launcher
working = record idle { workers = record { valid = true; started_jobs = job_j ∷ [] } ∷ [] }

-- The file of the job is bound to a worker that has closed, and another is there.
abbrev stale : Launcher
stale = record idle {
  workers =
      record { valid = false; started_jobs = [] } ∷ record { valid = true; started_jobs = [] } ∷ [];
  worker_set = (1, record { host = 127 ∷ 0 ∷ 0 ∷ 1 ∷ []; port = 2000 }) ∷ [];
  fileid_to_worker = (1 ∷ 2 ∷ [], 0) ∷ [];
}

abbrev processed_j : Launcher
processed_j =
    start_job 0 job_j
      (record (schedule job_j idle) { posted = []; fileid_to_worker = (1 ∷ 2 ∷ [], 0) ∷ [] })

no_job_lost_example :
    1
    ≤ copies 7 (take_back 0 (invalidate 0 processed_j)).completed
      + copies 7 (take_back 0 (invalidate 0 processed_j)).posted
      + running 7 (take_back 0 (invalidate 0 processed_j)).workers
unfolding run step close schedule pull process_job valid_worker assigned find_binding picked
    get_available_worker lowest_from seen_by_policy emplace_binding
no_job_lost_example =
    no_job_lost (λ k s q. 7) lowest job_j (Event.processed 0 ∷ Event.closed 0 none ∷ []) idle
      (take_back 0 (invalidate 0 processed_j))
      (record { posted_named = tt; workers_named = (tt, tt) }) (refl, (tt, (tt, tt))) refl

answered_at_most_once_example :
    (copies 7 (on_worker_response 0 header_j (79 ∷ []) processed_j).completed ≤ 1)
    × (copies 7 (on_worker_response 0 header_j (79 ∷ []) processed_j).completed
          + copies 7 (on_worker_response 0 header_j (79 ∷ []) processed_j).posted
          + running 7 (on_worker_response 0 header_j (79 ∷ []) processed_j).workers
        ≡ 1)
unfolding run step close schedule pull process_job find_binding valid_worker picked seen_by_policy
    get_available_worker lowest_from start_job modify emplace_job find_job on_worker_response
    finish_job set_state erase_job packet_header_full_key_compare same_bytes assigned
    emplace_binding
answered_at_most_once_example =
    answered_at_most_once (λ k s q. 7) lowest job_j
      (Event.processed 0 ∷ Event.responded 0 header_j (79 ∷ []) ∷ []) idle
      (on_worker_response 0 header_j (79 ∷ []) processed_j)
      (record { posted_named = tt; workers_named = (tt, tt) }) (refl, (tt, (tt, tt)))
      (
        tt,
        λ t e.
            subst
              (IsCleanRun lowest (Event.processed 0 ∷ Event.responded 0 header_j (79 ∷ []) ∷ []))
              (some_inj e)
              (
                tt,
                λ u e'.
                    subst (IsCleanRun lowest (Event.responded 0 header_j (79 ∷ []) ∷ []))
                      (some_inj e') ((λ d q. ap (λ x. x.valid) (sym (some_inj q))), λ v e''. tt),
              ),
      )
      (refl, (refl, tt)) refl refl

abbrev bound_idle : Launcher
bound_idle = start_job 0 job_j (record idle { fileid_to_worker = (1 ∷ 2 ∷ [], 0) ∷ [] })

stale_binding_stays_example :
    (t : Launcher) × (process_job lowest job_j stale ≡ some t)
    × (t.fileid_to_worker ≡ (1 ∷ 2 ∷ [], 0) ∷ [])
    × (((w : ℕ) × (valid_worker (some 1) stale.workers ≡ some w)
          × (t.sent ≡ (w, Sent.push_request job_j) ∷ [])
          × (t.posted ≡ []))
        ⊎ ((valid_worker (some 1) stale.workers ≡ none) × (t.sent ≡ []) × (t.posted ≡ job_j ∷ [])))
unfolding find_binding valid_worker same_bytes picked seen_by_policy get_available_worker
    lowest_from
stale_binding_stays_example = stale_binding_stays lowest job_j 0 (some 1) stale refl refl refl

closed_twice_runs_twice_example :
    (t : Launcher) × (run lowest (Event.closed 0 none ∷ Event.closed 0 none ∷ []) working ≡ some t)
    × (t.posted ≡ job_j ∷ job_j ∷ [])
closed_twice_runs_twice_example =
    closed_twice_runs_twice lowest 0 working (record { valid = true; started_jobs = job_j ∷ [] })
      refl

abbrev one_started : WorkerLaunch
one_started = record {
  max_outstanding = 10;
  started = 1;
  registered = 1;
  starter = 0;
  default_pool_value = 1;
}
