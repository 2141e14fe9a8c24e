-- ===== src/Launcher/Direct.antt =====
-- `start_trigger_post` and `process_job_with_worker` of proxy/launcher.hpp: a request of a client, which the
-- proxy sends to a worker, or, with `enable_direct_datafunction_`, answers with the worker's endpoint.
use slsfs.Prelude.{◌==◌, Option, ◌==◌, Bool, List, ℕ, if◌then◌else◌, none, some, ◌∷◌, []}
use slsfs.Bytes.{Bytes}
use slsfs.Launcher.Pool.{assigned, FileToWorker, Endpoint, Launcher, emplace_binding}
use slsfs.Launcher.Jobs.{schedule, valid_worker, picked}
use slsfs.Proxy.Header.{PacketHeader}
use slsfs.Proxy.Ring.{endpoint_bytes}

-- What becomes of such a request: its packet is posted again, or the client is answered.
pub data Direct : Type 0 where
  posted_again : Direct
  answered : PacketHeader → Bytes → Direct

-- `worker_set_.find`; an endpoint that is made by default has the address and the port 0.
unfoldable pub find_endpoint : ℕ → List (ℕ × Endpoint) → Endpoint
find_endpoint w [] = record { host = 0 ∷ 0 ∷ 0 ∷ 0 ∷ []; port = 0 }
find_endpoint w ((v, e) ∷ ws) = if w == v then e else find_endpoint w ws

-- The header of the packet for the worker: that of the client's packet, as a `worker_push_request`.
unfoldable pub push_header : PacketHeader → PacketHeader
push_header h = record h { type = 10 }

-- The callback that `start_trigger_post` gives: the packet with the endpoint of the worker.
unfoldable pub answer_endpoint : PacketHeader → ℕ → Launcher → Direct
answer_endpoint h w s = Direct.answered h (endpoint_bytes (find_endpoint w s.worker_set))

-- `none` is a policy that does not return.
unfoldable pub process_job_with_worker :
    FileToWorker → PacketHeader → Launcher → Option (Launcher × Direct)
process_job_with_worker policy h s = elim (valid_worker (assigned policy h.key s) s.workers) [
  | some w ↦ some (s, answer_endpoint h w s)
  | none ↦ elim (picked policy s) [
    | none ↦ none
    | some p ↦ elim (valid_worker p s.workers) [
      | none ↦ some (s, Direct.posted_again)
      | some w ↦ some (
        record s { fileid_to_worker = emplace_binding h.key w s.fileid_to_worker },
        answer_endpoint h w s,
      )
    ]
  ]
]

-- `start_trigger_post`, with the job that is made of the packet; a job that is scheduled is answered later.
unfoldable pub start_trigger_post :
    Bool → FileToWorker → ℕ → PacketHeader → Launcher → Option (Launcher × Option Direct)
start_trigger_post enable_direct policy id h s =
    let pushed = push_header h in
    let direct = process_job_with_worker policy pushed s in
    if enable_direct
    then (elim direct [ none ↦ none | some (t, d) ↦ some (t, some d) ])
    else some (schedule (record { id = id; header = pushed }) s, none)
