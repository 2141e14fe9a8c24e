-- ===== src/DataFunction/WithProxy.antt =====
-- A data function and its proxy: what each makes of the packets of the other.
use slsfs.Launcher.Jobs.Bound.{find_binding-emplace}
use slsfs.Launcher.Jobs.Bind.{assigned-none}
use slsfs.Prelude.{
  ◌++◌, ◌++◌, ==_refl, ◌∙◌, ◌∙◌, get_elem?, sym, ap, length, ◌≡◌, ℕ, ◌≡◌, List, if◌then◌else◌, refl,
  true, none, some, ◌∷◌, [],
}
use slsfs.Bytes.{Bytes}
use slsfs.Launcher.Pool.{
  assigned, FileToWorker, emplace_binding, find_binding, Job, Endpoint, TransferRequest, Launcher,
  find_job,
}
use slsfs.Launcher.Jobs
use slsfs.Launcher.Jobs.{
  picked, valid_worker, Event, close, take_back, invalidate, on_worker_close, read_transfer,
  reschedule_all, on_worker_reschedule, reschedule, add_worker,
}
use slsfs.Launcher.Direct.{
  Direct, find_endpoint, push_header, answer_endpoint, process_job_with_worker, start_trigger_post,
}
use slsfs.Proxy.Header.{PacketHeader, packet_header_full_key_compare}
use slsfs.Proxy.Ring.{endpoint_bytes, read_endpoint}
use slsfs.Proxy.Ring.Watch.{IsEndpoint, read_endpoint-bytes}
use slsfs.DataFunction.Command.{CommandPacket, ProxyCommand, write_packet}
use slsfs.DataFunction.Listen.{timer_reset, start_connect}

add_worker-joins :
    (info : Bytes) (l : Launcher) (ts : List TransferRequest)
    → l.transfer_requests ≡ ts
    → (add_worker info l).worker_set ≡ (length l.workers, read_endpoint info) ∷ l.worker_set
unfolding add_worker read_endpoint
add_worker-joins info l [] e = rw (e, add_worker) refl
add_worker-joins info l (t ∷ ts) e = rw (e, add_worker) refl

first_buf : List CommandPacket → Bytes
first_buf [] = []
first_buf (p ∷ ps) = p.buf

-- The packet by which a data function registers gives the proxy a new worker with the address and the
-- port of the data function's own server, an address of four bytes and a port of 16 bits.
pub announced_endpoint :
    (header : PacketHeader) (server : Endpoint) (s : ProxyCommand) (l : Launcher)
    (p : CommandPacket)
    → IsEndpoint server
    → (start_connect header server s).sent ≡ p ∷ s.sent
    → (add_worker p.buf l).worker_set ≡ (length l.workers, server) ∷ l.worker_set
unfolding start_connect timer_reset write_packet first_buf
announced_endpoint header server s l p v e =
    let payload : p.buf ≡ endpoint_bytes server = sym (ap first_buf e) in
    add_worker-joins p.buf l l.transfer_requests refl
    ∙ ap (λ x. (length l.workers, x) ∷ l.worker_set)
        (ap read_endpoint payload ∙ read_endpoint-bytes server v)

find_job-type :
    (h : PacketHeader) (type : ℕ) (js : List Job)
    → find_job (record h { type = type }) js ≡ find_job h js
unfolding find_job packet_header_full_key_compare
find_job-type h type [] = refl
find_job-type h type (j ∷ js) =
    ap (λ o. if packet_header_full_key_compare h j.header then some j else o)
      (find_job-type h type js)

first_header : PacketHeader → List CommandPacket → PacketHeader
first_header h [] = h
first_header h (p ∷ ps) = p.header

get_elem?-last :
    {A : Type 0} (x : A) (xs : List A) → get_elem? (xs ++ (x ∷ [])) (length xs) ≡ some x
get_elem?-last x [] = refl
get_elem?-last x (y ∷ xs) = get_elem?-last x xs

-- A worker that has just been added is valid.
added-valid :
    (info : Bytes) (l : Launcher) (ts : List TransferRequest)
    → l.transfer_requests ≡ ts
    → valid_worker (some (length l.workers)) (add_worker info l).workers ≡ some (length l.workers)
unfolding add_worker valid_worker
added-valid info l [] e =
    rw (e, add_worker)
      (rw (get_elem?-last (record { valid = true; started_jobs = [] }) l.workers, valid_worker)
        refl)
added-valid info l (t ∷ ts) e =
    rw (e, add_worker)
      (rw (get_elem?-last (record { valid = true; started_jobs = [] }) l.workers, valid_worker)
        refl)

-- With `enable_direct_datafunction_`, after a data function has registered: when no worker has the file and
-- the policy picks the new worker, the client's request is answered with bytes that are read as the
-- data function's own server, and the new worker has the file from then on.
pub client_reaches_function :
    (policy : FileToWorker) (header h : PacketHeader) (id : ℕ) (server : Endpoint)
    (s : ProxyCommand) (l : Launcher) (p : CommandPacket)
    → IsEndpoint server
    → (start_connect header server s).sent ≡ p ∷ s.sent
    → find_binding h.key (add_worker p.buf l).fileid_to_worker ≡ none
    → picked policy (add_worker p.buf l) ≡ some (some (length l.workers))
    → (t : Launcher) × (payload : Bytes) × (start_trigger_post true policy id h (add_worker p.buf l)
        ≡ some (t, some (Direct.answered (push_header h) payload)))
      × (read_endpoint payload ≡ server)
      × (find_binding h.key t.fileid_to_worker ≡ some (length l.workers))
unfolding start_trigger_post process_job_with_worker answer_endpoint push_header find_endpoint
    valid_worker
client_reaches_function policy header h id server s l p v sent unbound pick =
    let joined = add_worker p.buf l in
    let w = length l.workers in
    let set = announced_endpoint header server s l p v sent in
    let on : valid_worker (some w) joined.workers ≡ some w =
      added-valid p.buf l l.transfer_requests refl in
    let no_worker : valid_worker (assigned policy h.key joined) joined.workers ≡ none =
      ap (λ o. valid_worker o joined.workers) (assigned-none policy h.key joined unbound) in
    let bindings = emplace_binding h.key w joined.fileid_to_worker in
    let found : find_endpoint w joined.worker_set ≡ server =
      rw (set, find_endpoint) (rw (==_refl w) refl) in
    (
      record joined { fileid_to_worker = bindings },
      endpoint_bytes server,
      rw (no_worker, process_job_with_worker) (rw pick (rw on (rw found refl))),
      read_endpoint-bytes server v,
      find_binding-emplace h.key w joined.fileid_to_worker unbound,
    )
