-- ===== src/Launcher/Jobs/Bound.antt =====
-- The binding of a file to a valid worker through the callbacks of proxy/launcher.hpp and proxy/worker.hpp.
use slsfs.Launcher.Jobs.Process.{process_job-cases}
use slsfs.Launcher.Jobs.Valid.{valid_worker-append, valid_worker-modify_any}
use slsfs.Proxy.Header.{is_empty, PacketHeader}
use slsfs.Cache.Table.{same_bytes}
use slsfs.Prelude.{
  >>=-some, some_inj, get_elem?, subst, length, All, Bool-cases, ◌++◌, false, true, [],
  Option-cases, ap, ◌∙◌, ◌∙◌, ◌≡◌, ◌≡◌, ℕ, List, refl, inr, inl, none, some, ◌∷◌,
}
use slsfs.Bytes.{Bytes}
use slsfs.Launcher.Pool.{
  erase_job, pull, find_job, TransferRequest, FileToWorker, Job, DfWorker, Launcher, find_binding,
  emplace_binding, emplace_job,
}
use slsfs.Launcher.Jobs.{
  on_job_timer, schedule, set_state, finish_job, run, step, on_worker_ack, on_worker_response,
  add_worker, adopt, Event, process_job, start_job, reschedule, valid_worker,
}
use slsfs.Proxy.Header.HeaderBytes.{same_bytes_refl, same_bytes-eq}

pub find_binding-emplace :
    (key : Bytes) (w : ℕ) (bs : List (Bytes × ℕ))
    → find_binding key bs ≡ none
    → find_binding key (emplace_binding key w bs) ≡ some w
unfolding find_binding emplace_binding
find_binding-emplace key w bs e =
    let q : emplace_binding key w bs ≡ (key, w) ∷ bs = rw (e, emplace_binding) refl in
    rw q (rw (same_bytes_refl key) refl)

find_binding-emplace_other :
    (key k : Bytes) (w v : ℕ) (bs : List (Bytes × ℕ))
    → find_binding key bs ≡ some w
    → find_binding key (emplace_binding k v bs) ≡ some w
unfolding find_binding emplace_binding
find_binding-emplace_other key k w v bs e = elim (Option-cases (find_binding k bs)) [
  | inr (old, q) ↦ rw (q, emplace_binding) e
  | inl new ↦
      let q : emplace_binding k v bs ≡ (k, v) ∷ bs = rw (new, emplace_binding) refl in
      elim (Bool-cases (same_bytes key k)) [
        | inl same ↦
            let clash : find_binding key bs ≡ none =
              ap (λ x. find_binding x bs) (same_bytes-eq key k same) ∙ new in
            absurd (cc)
        | inr other ↦ rw q (rw other e)
      ]
]

-- The file is bound to a worker that is valid.
abbrev pub IsBound : Bytes → ℕ → Launcher → Type 0
IsBound key w s =
    (find_binding key s.fileid_to_worker ≡ some w) × (valid_worker (some w) s.workers ≡ some w)

-- The callbacks before a worker closes or a transfer ends.
abbrev pub IsOpen : Event → Type 0
IsOpen (Event.closed w t) = ⊥
IsOpen (Event.file_finished key) = ⊥
IsOpen e = Unit

start_job-IsBound :
    (key : Bytes) (w v : ℕ) (j : Job) (s : Launcher)
    → IsBound key w s
    → IsBound key w (start_job v j s)
unfolding start_job
start_job-IsBound key w v j s (b, on) = (
  b,
  valid_worker-modify_any w v (λ d. record d { started_jobs = emplace_job j d.started_jobs })
      s.workers (λ d. refl) on,
)

process_job-IsBound :
    (policy : FileToWorker) (key : Bytes) (w : ℕ) (j : Job) (s t : Launcher)
    → IsBound key w s
    → process_job policy j s ≡ some t
    → IsBound key w t
unfolding reschedule
process_job-IsBound policy key w j s t b e = elim (process_job-cases policy j s t e) [
  | inl (v, o, on, q) ↦ subst (IsBound key w) q (start_job-IsBound key w v j s b)
  | inr (inl (v, p, on, q)) ↦ subst (IsBound key w) q (
      start_job-IsBound key w v j
        (record s { fileid_to_worker = emplace_binding j.header.key v s.fileid_to_worker })
        (find_binding-emplace_other key j.header.key w v s.fileid_to_worker b.0, b.1))
  | inr (inr q) ↦ subst (IsBound key w) q b
]

adopt-IsBound :
    (key : Bytes) (w v : ℕ) (ds : List DfWorker) (keys : List Bytes) (bs : List (Bytes × ℕ))
    → find_binding key bs ≡ some w
    → find_binding key (adopt v ds keys bs) ≡ some w
unfolding adopt
adopt-IsBound key w v ds [] bs e = e
adopt-IsBound key w v ds (k ∷ keys) bs e =
    let kept = find_binding-emplace_other key k w v bs e in
    elim (Option-cases (find_binding k bs)) [
      | inl new ↦ rw (new, adopt) (adopt-IsBound key w v ds keys (emplace_binding k v bs) kept)
      | inr (old, q) ↦
          rw (q, adopt)
            (elim (Option-cases (valid_worker (some old) ds)) [
              | inl gone ↦ rw gone (adopt-IsBound key w v ds keys (emplace_binding k v bs) kept)
              | inr (u, on) ↦ rw on (adopt-IsBound key w v ds keys bs e)
            ])
    ]

add_worker-IsBound :
    (key : Bytes) (w : ℕ) (info : Bytes) (s : Launcher) (ts : List TransferRequest)
    → s.transfer_requests ≡ ts
    → IsBound key w s
    → IsBound key w (add_worker info s)
unfolding add_worker
add_worker-IsBound key w info s [] e (b, on) =
    rw (e, add_worker)
      (b, valid_worker-append w s.workers (record { valid = true; started_jobs = [] } ∷ []) on)
add_worker-IsBound key w info s (t ∷ ts) e (b, on) =
    let joined : List DfWorker = s.workers ++ (record { valid = true; started_jobs = [] } ∷ []) in
    rw (e, add_worker)
      (
        adopt-IsBound key w (length s.workers) joined t.file_bindings s.fileid_to_worker b,
        valid_worker-append w s.workers (record { valid = true; started_jobs = [] } ∷ []) on,
      )

on_worker_response-IsBound :
    (key : Bytes) (w v : ℕ) (h : PacketHeader) (body : Bytes) (s : Launcher)
    → IsBound key w s
    → IsBound key w (on_worker_response v h body s)
unfolding on_worker_response finish_job set_state
on_worker_response-IsBound key w v h body s b = elim (Option-cases (get_elem? s.workers v)) [
  | inl gone ↦ rw (gone, on_worker_response) b
  | inr (d, at) ↦
      rw (at, on_worker_response)
        (elim (Option-cases (find_job h d.started_jobs)) [
          | inl gone ↦ rw gone b
          | inr (j, found) ↦ rw found (
            b.0,
            valid_worker-modify_any w v
                (λ d. record d { started_jobs = erase_job h d.started_jobs }) s.workers (λ d. refl)
                b.1,
          )
        ])
]

on_worker_ack-IsBound :
    (key : Bytes) (w v : ℕ) (h : PacketHeader) (s : Launcher)
    → IsBound key w s
    → IsBound key w (on_worker_ack v h s)
unfolding on_worker_ack set_state
on_worker_ack-IsBound key w v h s b = elim (Bool-cases (is_empty h)) [
  | inl empty ↦ rw (empty, on_worker_ack) b
  | inr full ↦
      rw (full, on_worker_ack)
        (elim (Option-cases (get_elem? s.workers v)) [
          | inl gone ↦ rw gone b
          | inr (d, at) ↦ rw at (elim (Option-cases (find_job h d.started_jobs)) [
            | inl gone ↦ rw gone b
            | inr (j, found) ↦ rw found b
          ])
        ])
]

step-IsBound :
    (policy : FileToWorker) (key : Bytes) (w : ℕ) (e : Event) (s t : Launcher)
    → IsOpen e
    → step policy e s ≡ some t
    → IsBound key w s
    → IsBound key w t
unfolding step schedule on_job_timer reschedule
step-IsBound policy key w (Event.scheduled j) s t o e b = subst (IsBound key w) (some_inj e) b
step-IsBound policy key w (Event.processed i) s t o e b = elim (Option-cases (pull i s.posted)) [
  | inl gone ↦ subst (IsBound key w) (some_inj (rw (gone, step) at e)) b
  | inr ((j, rest), q) ↦
      process_job-IsBound policy key w j (record s { posted = rest }) t b (rw (q, step) at e)
]
step-IsBound policy key w (Event.timer true j) s t o e b = subst (IsBound key w) (some_inj e) b
step-IsBound policy key w (Event.timer false j) s t o e b = subst (IsBound key w) (some_inj e) b
step-IsBound policy key w (Event.closed v tables) s t o e b = absurd o
step-IsBound policy key w (Event.file_finished k) s t o e b = absurd o
step-IsBound policy key w (Event.acked v h) s t o e b =
    subst (IsBound key w) (some_inj e) (on_worker_ack-IsBound key w v h s b)
step-IsBound policy key w (Event.responded v h body) s t o e b =
    subst (IsBound key w) (some_inj e) (on_worker_response-IsBound key w v h body s b)
step-IsBound policy key w (Event.added info) s t o e b =
    subst (IsBound key w) (some_inj e) (add_worker-IsBound key w info s s.transfer_requests refl b)

pub run-IsBound :
    (policy : FileToWorker) (key : Bytes) (w : ℕ) (es : List Event) (s t : Launcher)
    → All IsOpen es
    → run policy es s ≡ some t
    → IsBound key w s
    → IsBound key w t
unfolding run
run-IsBound policy key w [] s t o e b = subst (IsBound key w) (some_inj e) b
run-IsBound policy key w (e ∷ es) s t o q b =
    let (u, q1, q2) = >>=-some (step policy e s) _ t q in
    run-IsBound policy key w es u t o.1 q2 (step-IsBound policy key w e s u o.0 q1 b)
