-- ===== src/Launcher/Jobs/Names.antt =====
-- Every callback keeps the jobs' numbers determined by their packets.
use slsfs.Launcher.Jobs.Process.{process_job-cases}
use slsfs.Proxy.Header.{packet_header_full_key_compare, PacketHeader}
use slsfs.Prelude.{
  refl, Bool-cases, get_elem?, All-append, Option-cases, subst, some_inj, Option, All, List, ◌≡◌, ℕ,
  ◌≡◌, inr, inl, false, true, none, some, ◌∷◌, [],
}
use slsfs.Bytes.{Bytes}
use slsfs.Launcher.Pool.{
  FileToWorker, emplace_binding, find_job, erase_job, emplace_job, Job, Launcher, pull,
}
use slsfs.Launcher.Jobs.{
  on_file_finished, set_state, finish_job, add_worker, on_worker_ack, on_worker_response, close,
  invalidate, on_worker_close, on_worker_reschedule, take_back, reschedule_all, reschedule,
  start_job, Event, step, schedule, process_job, on_job_timer,
}
use slsfs.Launcher.Jobs.Copies.{Named}
use slsfs.Launcher.Jobs.Conserve.{NamedWorker, All-get, All-modify, AllNamed}
use slsfs.Launcher.Jobs.Steps.{NamedEvent, All-pull}
use slsfs.Launcher.Jobs.Once.{on_worker_close-lem, on_worker_ack-lists, add_worker-lists}
use slsfs.Proxy.Header.{PacketHeader, packet_header_full_key_compare}

-- Every step keeps the numbers determined by the packets.
module _ (ident : Bytes → Bytes → Bytes → ℕ) where
  All-emplace :
      (j : Job) (js : List Job)
      → Named ident j
      → All (Named ident) js
      → All (Named ident) (emplace_job j js)
  unfolding emplace_job
  All-emplace j js n h =
      elim (find_job j.header js)
        as (λ o. All (Named ident) (elim o [ none ↦ j ∷ js | some old ↦ js ])) [
          | none ↦ (n, h)
          | some old ↦ h
        ]

  All-erase :
      (h : PacketHeader) (js : List Job) → All (Named ident) js → All (Named ident) (erase_job h js)
  unfolding erase_job
  All-erase h [] n = tt
  All-erase h (j ∷ js) n = elim (Bool-cases (packet_header_full_key_compare h j.header)) [
    | inl same ↦ rw same n.1
    | inr other ↦ rw other (n.0, All-erase h js n.1)
  ]

  start_job-AllNamed :
      (w : ℕ) (j : Job) (s : Launcher)
      → Named ident j
      → AllNamed ident s
      → AllNamed ident (start_job w j s)
  unfolding start_job
  start_job-AllNamed w j s n h = record {
    posted_named = h.posted_named;
    workers_named =
        All-modify ident w (λ d. record d { started_jobs = emplace_job j d.started_jobs }) s.workers
          (λ d g. All-emplace j d.started_jobs n g) h.workers_named;
  }

  reschedule-AllNamed :
      (j : Job) (s : Launcher) → Named ident j → AllNamed ident s → AllNamed ident (reschedule j s)
  unfolding reschedule
  reschedule-AllNamed j s n h = record {
    posted_named = All-append (Named ident) s.posted (j ∷ []) h.posted_named (n, tt);
    workers_named = h.workers_named;
  }

  reschedule_all-AllNamed :
      (js : List Job) (s : Launcher)
      → All (Named ident) js
      → AllNamed ident s
      → AllNamed ident (reschedule_all js s)
  unfolding reschedule_all on_worker_reschedule reschedule
  reschedule_all-AllNamed [] s n h = h
  reschedule_all-AllNamed (j ∷ js) s n h =
      reschedule_all-AllNamed js (on_worker_reschedule j s) n.1 (record {
        posted_named = All-append (Named ident) s.posted (j ∷ []) h.posted_named (n.0, tt);
        workers_named = h.workers_named;
      })

  process_job-AllNamed :
      (policy : FileToWorker) (j : Job) (s t : Launcher)
      → Named ident j
      → AllNamed ident s
      → process_job policy j s ≡ some t
      → AllNamed ident t
  process_job-AllNamed policy j s t n h e = elim (process_job-cases policy j s t e) [
    | inl (w, o, on, q) ↦ subst (AllNamed ident) q (start_job-AllNamed w j s n h)
    | inr (inl (w, p, on, q)) ↦ subst (AllNamed ident) q (
        start_job-AllNamed w j
          (record s { fileid_to_worker = emplace_binding j.header.key w s.fileid_to_worker }) n
          (record { posted_named = h.posted_named; workers_named = h.workers_named }))
    | inr (inr q) ↦ subst (AllNamed ident) q (reschedule-AllNamed j s n h)
  ]

  take_back-AllNamed : (w : ℕ) (s : Launcher) → AllNamed ident s → AllNamed ident (take_back w s)
  unfolding take_back
  take_back-AllNamed w s h = elim (Option-cases (get_elem? s.workers w)) [
    | inl gone ↦ rw (gone, take_back) h
    | inr (d, at) ↦
        rw (at, take_back)
          (reschedule_all-AllNamed d.started_jobs s (All-get ident s.workers w d h.workers_named at)
            h)
  ]

  on_worker_close-AllNamed :
      (w : ℕ) (buf : Bytes) (s s' : Launcher)
      → on_worker_close w buf s ≡ some s'
      → AllNamed ident s
      → AllNamed ident s'
  on_worker_close-AllNamed w buf s s' e h =
      let (p, ws, c) = on_worker_close-lem w buf s s' e in
      record { posted_named = rw p h.posted_named; workers_named = rw ws h.workers_named }

  invalidate-AllNamed : (w : ℕ) (s : Launcher) → AllNamed ident s → AllNamed ident (invalidate w s)
  unfolding invalidate
  invalidate-AllNamed w s h = record {
    posted_named = h.posted_named;
    workers_named =
        All-modify ident w (λ d. record d { valid = false }) s.workers (λ d g. g) h.workers_named;
  }

  close-AllNamed :
      (w : ℕ) (t : Option Bytes) (s s' : Launcher)
      → close w t s ≡ some s'
      → AllNamed ident s
      → AllNamed ident s'
  unfolding close
  close-AllNamed w none s s' e h =
      subst (AllNamed ident) (some_inj e)
        (take_back-AllNamed w (invalidate w s) (invalidate-AllNamed w s h))
  close-AllNamed w (some buf) s s' e h =
      elim (Option-cases (on_worker_close w buf (invalidate w s))) [
        | inl bad ↦ let no : none ≡ some s' = rw (bad, close) at e in absurd (cc)
        | inr (t, q) ↦ subst (AllNamed ident) (some_inj (rw (q, close) at e)) (
            take_back-AllNamed w t
              (on_worker_close-AllNamed w buf (invalidate w s) t q (invalidate-AllNamed w s h)))
      ]

  on_worker_response-AllNamed :
      (w : ℕ) (h : PacketHeader) (body : Bytes) (s : Launcher)
      → AllNamed ident s
      → AllNamed ident (on_worker_response w h body s)
  unfolding on_worker_response finish_job set_state
  on_worker_response-AllNamed w h body s n = elim (Option-cases (get_elem? s.workers w)) [
    | inl gone ↦ rw (gone, on_worker_response) n
    | inr (d, at) ↦ elim (Option-cases (find_job h d.started_jobs)) [
      | inl gone ↦
          let e : on_worker_response w h body s ≡ s = rw (at, on_worker_response) (rw gone refl) in
          rw e n
      | inr (j, found) ↦
          let e : on_worker_response w h body s ≡ finish_job w h body j s =
            rw (at, on_worker_response) (rw found refl) in
          rw e (record {
            posted_named = n.posted_named;
            workers_named =
                All-modify ident w (λ d. record d { started_jobs = erase_job h d.started_jobs })
                  s.workers (λ d g. All-erase h d.started_jobs g) n.workers_named;
          })
    ]
  ]

  on_worker_ack-AllNamed :
      (w : ℕ) (h : PacketHeader) (s : Launcher)
      → AllNamed ident s
      → AllNamed ident (on_worker_ack w h s)
  on_worker_ack-AllNamed w h s n =
      let (p, ws, c) = on_worker_ack-lists w h s in
      record { posted_named = rw p n.posted_named; workers_named = rw ws n.workers_named }

  add_worker-AllNamed :
      (info : Bytes) (s : Launcher) → AllNamed ident s → AllNamed ident (add_worker info s)
  add_worker-AllNamed info s n =
      let (p, ws, c) = add_worker-lists info s in
      record {
        posted_named = rw p n.posted_named;
        workers_named = rw ws (
            All-append (NamedWorker ident) s.workers
              (record { valid = true; started_jobs = [] } ∷ []) n.workers_named (tt, tt));
      }

  pub step-AllNamed :
      (policy : FileToWorker) (e : Event) (s s' : Launcher)
      → NamedEvent ident e
      → step policy e s ≡ some s'
      → AllNamed ident s
      → AllNamed ident s'
  unfolding step schedule on_job_timer on_file_finished
  step-AllNamed policy (Event.scheduled j) s s' g e n =
      subst (AllNamed ident) (some_inj e) (record {
        posted_named = All-append (Named ident) s.posted (j ∷ []) n.posted_named (g, tt);
        workers_named = n.workers_named;
      })
  step-AllNamed policy (Event.processed i) s s' g e n = elim (Option-cases (pull i s.posted)) [
    | inl gone ↦ subst (AllNamed ident) (some_inj (rw (gone, step) at e)) n
    | inr ((j, rest), q) ↦
        let (nj, nrest) = All-pull (Named ident) i s.posted j rest n.posted_named q in
        process_job-AllNamed policy j (record s { posted = rest }) s' nj
          (record { posted_named = nrest; workers_named = n.workers_named }) (rw (q, step) at e)
  ]
  step-AllNamed policy (Event.timer true j) s s' g e n =
      subst (AllNamed ident) (some_inj e) (reschedule-AllNamed j s g n)
  step-AllNamed policy (Event.timer false j) s s' g e n = subst (AllNamed ident) (some_inj e) n
  step-AllNamed policy (Event.closed w t) s s' g e n = close-AllNamed w t s s' e n
  step-AllNamed policy (Event.acked w h) s s' g e n =
      subst (AllNamed ident) (some_inj e) (on_worker_ack-AllNamed w h s n)
  step-AllNamed policy (Event.responded w h body) s s' g e n =
      subst (AllNamed ident) (some_inj e) (on_worker_response-AllNamed w h body s n)
  step-AllNamed policy (Event.added info) s s' g e n =
      subst (AllNamed ident) (some_inj e) (add_worker-AllNamed info s n)
  step-AllNamed policy (Event.file_finished key) s s' g e n =
      subst (AllNamed ident) (some_inj e)
        (record { posted_named = n.posted_named; workers_named = n.workers_named })
