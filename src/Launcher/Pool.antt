-- ===== src/Launcher/Pool.antt =====
-- The state of proxy/launcher.hpp with its workers (proxy/worker.hpp) and jobs (proxy/launcher-job.hpp),
-- and the maps in it. A `worker_ptr` is an index into the workers that ever connected; a `job_ptr` is the
-- job's number with the header of its packet, by which `started_jobs_` keeps it. The concurrent maps are
-- lists, in which `emplace` keeps what is there.
use slsfs.Prelude.{◌==◌, ◌==◌, Option, List, Bool, ℕ, if◌then◌else◌, suc, zero, none, some, ◌∷◌, []}
use slsfs.Bytes.{Bytes}
use slsfs.Cache.Table.{same_bytes}
use slsfs.Launcher.Assign.{Worker}
use slsfs.Proxy.Header.{PacketHeader, packet_header_full_key_compare}

pub record Job : Type 0 where
  pub id : ℕ
  pub header : PacketHeader

pub data JobState : Type 0 where
  registered : JobState
  started : JobState
  finished : JobState

-- `df::worker`: `valid_` and `started_jobs_`.
pub record DfWorker : Type 0 where
  pub valid : Bool
  pub started_jobs : List Job

pub record Endpoint : Type 0 where
  pub host : Bytes
  pub port : ℕ

-- `transfer_request`: the keys of the files, and the packet's data.
pub record TransferRequest : Type 0 where
  pub file_bindings : List Bytes
  pub cache_tables : Bytes

-- The calls of `launcher_policy`, which it posts to the policies.
pub data Notice : Type 0 where
  schedule_a_new_job : Job → Notice
  reschedule_a_job : Job → Notice
  started_a_new_job : ℕ → Job → Notice
  finished_a_job : ℕ → Job → Notice
  registered_a_new_worker : ℕ → Bool → Notice
  deregistered_a_worker : ℕ → ℕ → ℕ → Notice

-- What is written to a worker's socket.
pub data Sent : Type 0 where
  push_request : Job → Sent
  cache_transfer : Bytes → Sent

-- `posted` are the calls of `process_job` that wait in `io_context_`; `completed` the jobs whose
-- `on_completion_` was called, and `answers` the packet that each call got, the last one first.
-- `notices` are the calls that the policies got, also the last one first.
pub record Launcher : Type 0 where
  pub workers : List DfWorker
  pub worker_set : List (ℕ × Endpoint)
  pub fileid_to_worker : List (Bytes × ℕ)
  pub transfer_requests : List TransferRequest
  pub posted : List Job
  pub completed : List Job
  pub answers : List (Job × PacketHeader × Bytes)
  pub states : ℕ → JobState
  pub sent : List (ℕ × Sent)
  pub notices : List Notice

-- The policy that assigns workers, `worker_filetoworker`, by what the calls it got have made of it:
-- whether the file is in `transfering_` of `active_lowest_load`, false with every other policy; and
-- `get_available_worker`, with `none` outside if it does not return, as that of `random_assign` does
-- not while there are workers and none is valid.
pub record FileToWorker : Type 0 where
  pub is_transferring : List Notice → Bytes → Bool
  pub available : List Notice → List Worker → Option (Option Worker)

unfoldable pub find_binding : Bytes → List (Bytes × ℕ) → Option ℕ
find_binding key [] = none
find_binding key ((k, w) ∷ bs) = if same_bytes key k then some w else find_binding key bs

unfoldable pub emplace_binding : Bytes → ℕ → List (Bytes × ℕ) → List (Bytes × ℕ)
emplace_binding key w bs = elim (find_binding key bs) [ none ↦ (key, w) ∷ bs | some old ↦ bs ]

unfoldable pub erase_binding : Bytes → List (Bytes × ℕ) → List (Bytes × ℕ)
erase_binding key [] = []
erase_binding key ((k, w) ∷ bs) = if same_bytes key k then bs else (k, w) ∷ erase_binding key bs

unfoldable pub find_job : PacketHeader → List Job → Option Job
find_job h [] = none
find_job h (j ∷ js) = if packet_header_full_key_compare h j.header then some j else find_job h js

unfoldable pub emplace_job : Job → List Job → List Job
emplace_job j js = elim (find_job j.header js) [ none ↦ j ∷ js | some old ↦ js ]

unfoldable pub erase_job : PacketHeader → List Job → List Job
erase_job h [] = []
erase_job h (j ∷ js) = if packet_header_full_key_compare h j.header then js else j ∷ erase_job h js

-- A call on the worker that a pointer leads to.
unfoldable pub modify : ℕ → (DfWorker → DfWorker) → List DfWorker → List DfWorker
modify w f [] = []
modify zero f (d ∷ ds) = f d ∷ ds
modify (suc w) f (d ∷ ds) = d ∷ modify w f ds

-- `worker_set_.erase`
unfoldable pub erase_worker : ℕ → List (ℕ × Endpoint) → List (ℕ × Endpoint)
erase_worker w [] = []
erase_worker w ((v, e) ∷ ws) = if w == v then ws else (v, e) ∷ erase_worker w ws

-- The element at an index, and the list without it.
unfoldable pub pull : ℕ → List Job → Option (Job × List Job)
pull i [] = none
pull zero (j ∷ js) = some (j, js)
pull (suc i) (j ∷ js) = elim (pull i js) [ none ↦ none | some (k, rest) ↦ some (k, j ∷ rest) ]

-- `get_assigned_worker`, with the override of `active_lowest_load`: a file in transfer has no worker.
unfoldable pub assigned : FileToWorker → Bytes → Launcher → Option ℕ
assigned policy key s =
    if policy.is_transferring s.notices key then none else find_binding key s.fileid_to_worker
