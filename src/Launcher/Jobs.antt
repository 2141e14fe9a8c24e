-- ===== src/Launcher/Jobs.antt =====
-- proxy/launcher.hpp and proxy/worker.hpp: how a job goes to a worker, comes back, or is taken from a
-- worker that closes. `step` is one callback; the callbacks come in an order that is given. `none` is
-- undefined behaviour, a transfer whose table is too short, or a policy that does not return.
pub mod Process
pub mod Copies
pub mod Conserve
pub mod Once
pub mod Steps
pub mod Names
pub mod Lost
pub mod Valid
pub mod Bound
pub mod Bind
pub mod Closed
pub mod Transferred
use slsfs.Prelude.{
  refl, suc, zero, inr, inl, get_elem?, ◌==◌, ◌++◌, length, ◌==◌, Bool, ℕ, List, Option, ◌++◌,
  ◌>>=◌, if◌then◌else◌, false, true, none, some, ◌∷◌, [],
}
use slsfs.Bytes.{Bytes, load, ntoh}
use slsfs.Launcher.Assign.{Worker}
use slsfs.Launcher.Transfer.{get_fileids_from_transfer, counts, without_counts}
use slsfs.Launcher.Pool.{
  assigned, FileToWorker, Job, JobState, DfWorker, Endpoint, TransferRequest, Notice, Sent,
  Launcher, find_binding, emplace_binding, erase_binding, find_job, emplace_job, erase_job, modify,
  erase_worker, pull,
}
use slsfs.Proxy.Header.{PacketHeader, is_empty}
use slsfs.Proxy.Request.{bytes_at}

unfoldable pub schedule : Job → Launcher → Launcher
schedule j s = record s {
  notices = Notice.schedule_a_new_job j ∷ s.notices;
  posted = s.posted ++ (j ∷ []);
}

unfoldable pub reschedule : Job → Launcher → Launcher
reschedule j s = record s {
  notices = Notice.reschedule_a_job j ∷ s.notices;
  posted = s.posted ++ (j ∷ []);
}

-- `!worker_ptr || not worker_ptr->is_valid()` gives `none`.
unfoldable pub valid_worker : Option ℕ → List DfWorker → Option ℕ
valid_worker none ds = none
valid_worker (some w) ds = elim (get_elem? ds w) [
  | none ↦ none
  | some d ↦ if d.valid then some w else none
]

-- What a policy sees of the workers in `worker_set_`.
unfoldable pub seen_by_policy : List (ℕ × Endpoint) → List DfWorker → List Worker
seen_by_policy [] ds = []
seen_by_policy ((w, e) ∷ ws) ds =
    let rest = seen_by_policy ws ds in
    elim (get_elem? ds w) [
      | none ↦ rest
      | some d ↦
          record { worker_id = w; is_valid = d.valid; pending_jobs = length d.started_jobs } ∷ rest
    ]

unfoldable pub picked : FileToWorker → Launcher → Option (Option ℕ)
picked policy s = elim (policy.available s.notices (seen_by_policy s.worker_set s.workers)) [
  | none ↦ none
  | some none ↦ some none
  | some (some w) ↦ some (some w.worker_id)
]

-- `started_a_new_job` of the policies, and `worker::start_write` of a job.
unfoldable pub start_job : ℕ → Job → Launcher → Launcher
start_job w j s = record s {
  notices = Notice.started_a_new_job w j ∷ s.notices;
  workers = modify w (λ d. record d { started_jobs = emplace_job j d.started_jobs }) s.workers;
  sent = (w, Sent.push_request j) ∷ s.sent;
}

-- `process_job`, with `none` when the policy's `get_available_worker` does not return.
unfoldable pub process_job : FileToWorker → Job → Launcher → Option Launcher
process_job policy j s = elim (valid_worker (assigned policy j.header.key s) s.workers) [
  | some w ↦ some (start_job w j s)
  | none ↦ elim (picked policy s) [
    | none ↦ none
    | some p ↦ elim (valid_worker p s.workers) [
      | none ↦ some (reschedule j s)
      | some w ↦ some (
          start_job w j
            (record s { fileid_to_worker = emplace_binding j.header.key w s.fileid_to_worker }))
    ]
  ]
]

-- `job->timer_`'s callback, told whether `ec` is an error other than `operation_aborted`.
unfoldable pub on_job_timer : Bool → Job → Launcher → Launcher
on_job_timer error j s = if error then reschedule j s else s

unfoldable pub on_worker_reschedule : Job → Launcher → Launcher
on_worker_reschedule j s =
    reschedule j (record s { fileid_to_worker = erase_binding j.header.key s.fileid_to_worker })

unfoldable pub reschedule_all : List Job → Launcher → Launcher
reschedule_all [] s = s
reschedule_all (j ∷ js) s = reschedule_all js (on_worker_reschedule j s)

-- What the table of a closing worker says: the counts, and the transfer that it makes.
unfoldable pub read_transfer : Bytes → Option (ℕ × ℕ × TransferRequest)
read_transfer buf = do
  (hits, evictions) ← counts buf
  let tables = without_counts buf
  files ← get_fileids_from_transfer tables
  some (hits, evictions, record { file_bindings = files; cache_tables = tables })

unfoldable pub on_worker_close : ℕ → Bytes → Launcher → Option Launcher
on_worker_close w buf s = elim (read_transfer buf) [
  | none ↦ none
  | some (hits, evictions, request) ↦ some (record s {
    transfer_requests = s.transfer_requests ++ (request ∷ []);
    worker_set = erase_worker w s.worker_set;
    notices = Notice.deregistered_a_worker w hits evictions ∷ s.notices;
  })
]

-- The loop of `worker::close` over the jobs that it started.
unfoldable pub take_back : ℕ → Launcher → Launcher
take_back w s = elim (get_elem? s.workers w) [ none ↦ s | some d ↦ reschedule_all d.started_jobs s ]

unfoldable pub invalidate : ℕ → Launcher → Launcher
invalidate w s = record s { workers = modify w (λ d. record d { valid = false }) s.workers }

-- `worker::close`, with the tables that the worker sent, if any.
unfoldable pub close : ℕ → Option Bytes → Launcher → Option Launcher
close w none s = some (take_back w (invalidate w s))
close w (some buf) s = elim (on_worker_close w buf (invalidate w s)) [
  | none ↦ none
  | some t ↦ some (take_back w t)
]

unfoldable pub set_state : Job → JobState → Launcher → Launcher
set_state j state s = record s { states = λ k. if k == j.id then state else s.states k }

-- `worker::on_worker_ack`
unfoldable pub on_worker_ack : ℕ → PacketHeader → Launcher → Launcher
on_worker_ack w h s = if is_empty h then s else elim (get_elem? s.workers w) [
  | none ↦ s
  | some d ↦ elim (find_job h d.started_jobs) [ none ↦ s | some j ↦ set_state j JobState.started s ]
]

-- The job of a response leaves the worker, and its `on_completion_` gets the packet of the response.
unfoldable pub finish_job : ℕ → PacketHeader → Bytes → Job → Launcher → Launcher
finish_job w h body j s = set_state j JobState.finished (record s {
  workers = modify w (λ d. record d { started_jobs = erase_job h d.started_jobs }) s.workers;
  completed = j ∷ s.completed;
  answers = (j, h, body) ∷ s.answers;
  notices = Notice.finished_a_job w j ∷ s.notices;
})

-- `worker::on_worker_response`
unfoldable pub on_worker_response : ℕ → PacketHeader → Bytes → Launcher → Launcher
on_worker_response w h body s = elim (get_elem? s.workers w) [
  | none ↦ s
  | some d ↦ elim (find_job h d.started_jobs) [ none ↦ s | some j ↦ finish_job w h body j s ]
]

-- The loop of `add_worker` over the files of a transfer.
unfoldable pub adopt : ℕ → List DfWorker → List Bytes → List (Bytes × ℕ) → List (Bytes × ℕ)
adopt w ds [] bindings = bindings
adopt w ds (key ∷ keys) bindings =
    let emplaced = emplace_binding key w bindings in
    adopt w ds keys (elim (find_binding key bindings) [
      | none ↦ emplaced
      | some old ↦ elim (valid_worker (some old) ds) [ none ↦ emplaced | some v ↦ bindings ]
    ])

-- `add_worker`, with the data of the packet that announces the worker: an address and a port, six bytes.
-- The code reads on past shorter data, where this reads an empty rest.
unfoldable pub add_worker : Bytes → Launcher → Launcher
add_worker worker_info s =
    let w = length s.workers in
    let endpoint : Endpoint = record {
      host = bytes_at 0 4 worker_info;
      port = ntoh 2 (load (bytes_at 4 2 worker_info));
    } in
    let joined : Launcher = record s {
      workers = s.workers ++ (record { valid = true; started_jobs = [] } ∷ []);
      worker_set = (w, endpoint) ∷ s.worker_set;
    } in
    elim s.transfer_requests [
      | [] ↦ record joined { notices = Notice.registered_a_new_worker w false ∷ joined.notices }
      | t ∷ ts ↦ record joined {
        transfer_requests = ts;
        fileid_to_worker = adopt w joined.workers t.file_bindings joined.fileid_to_worker;
        sent = (w, Sent.cache_transfer t.cache_tables) ∷ joined.sent;
        notices = Notice.registered_a_new_worker w true ∷ joined.notices;
      }
    ]

pub data Event : Type 0 where
  scheduled : Job → Event
  processed : ℕ → Event
  timer : Bool → Job → Event
  closed : ℕ → Option Bytes → Event
  acked : ℕ → PacketHeader → Event
  responded : ℕ → PacketHeader → Bytes → Event
  added : Bytes → Event
  file_finished : Bytes → Event

-- `finished_a_job` of `active_lowest_load`, which is posted to it: the last job of a file that a worker
-- counts is done.
unfoldable pub on_file_finished : Bytes → Launcher → Launcher
on_file_finished key s = record s { fileid_to_worker = erase_binding key s.fileid_to_worker }

-- One callback; `processed i` runs the call at index `i` of those that wait.
unfoldable pub step : FileToWorker → Event → Launcher → Option Launcher
step policy (scheduled j) s = some (schedule j s)
step policy (processed i) s = elim (pull i s.posted) [
  | none ↦ some s
  | some (j, rest) ↦ process_job policy j (record s { posted = rest })
]
step policy (timer error j) s = some (on_job_timer error j s)
step policy (closed w to_transfer) s = close w to_transfer s
step policy (acked w h) s = some (on_worker_ack w h s)
step policy (responded w h body) s = some (on_worker_response w h body s)
step policy (added worker_info) s = some (add_worker worker_info s)
step policy (file_finished key) s = some (on_file_finished key s)

unfoldable pub run : FileToWorker → List Event → Launcher → Option Launcher
run policy [] s = some s
run policy (e ∷ es) s = step policy e s >>= run policy es
