-- ===== src/Launcher/Jobs/Once.antt =====
-- What one callback does to the number of a job's copies.
use slsfs.Prelude.{
  List-cases, ◌++◌, Bool-cases, sym, subst, ap, ◌∙◌, ◌+◌, arith, some_inj, ◌∙◌, ◌+◌, ◌≡◌, ◌≤◌,
  Option-cases, Option, get_elem?, ◌≡◌, ◌≤◌, ℕ, refl, inr, inl, false, true, none, some, ◌∷◌, [],
}
use slsfs.Bytes.{Bytes}
use slsfs.Launcher.Pool.{DfWorker, Launcher, find_job, erase_job, modify}
use slsfs.Launcher.Jobs.{
  close, on_worker_close, take_back, reschedule_all, on_worker_response, on_worker_ack, add_worker,
  read_transfer, invalidate, set_state, finish_job,
}
use slsfs.Launcher.Jobs.Copies.{
  one, copies, at_worker, copies-erase, running-modify, modify-none, get_elem?-modify,
  running-append, at_worker-le-running, reschedule_all-lem,
}
use slsfs.Launcher.Jobs.Conserve.{total}
use slsfs.Proxy.Header.{PacketHeader, is_empty}

-- A step that brings `n` copies loses none that is the only one, and where it is clean and there is one
-- at most, it keeps the number.
abbrev pub Counts {ℓ} : Type ℓ → ℕ → ℕ → Launcher → Launcher → Type ℓ
Counts Clean k n s s' =
    (1 ≤ total k s + n → 1 ≤ total k s') × (Clean → total k s + n ≤ 1 → total k s' ≡ total k s + n)

pub on_worker_close-lem :
    (w : ℕ) (buf : Bytes) (s s' : Launcher)
    → on_worker_close w buf s ≡ some s'
    → (s'.posted ≡ s.posted) × (s'.workers ≡ s.workers) × (s'.completed ≡ s.completed)
unfolding on_worker_close
on_worker_close-lem w buf s s' e = elim (Option-cases (read_transfer buf)) [
  | inl bad ↦ let no : none ≡ some s' = rw (bad, on_worker_close) at e in absurd (cc)
  | inr (t, q) ↦
      let p = some_inj (rw (q, on_worker_close) at e) in
      (ap (λ x. x.posted) (sym p), ap (λ x. x.workers) (sym p), ap (λ x. x.completed) (sym p))
]

invalid : DfWorker → DfWorker
invalid d = record d { valid = false }

-- The pointer leads to a worker that is valid.
abbrev pub IsUp : ℕ → Launcher → Type 0
IsUp w s = (d : DfWorker) → get_elem? s.workers w ≡ some d → d.valid ≡ true

take_back-Counts :
    (k w : ℕ) (s s' : Launcher)
    → (s'.posted ≡ s.posted)
    → (s'.workers ≡ modify w invalid s.workers)
    → (s'.completed ≡ s.completed)
    → Counts (IsUp w s) k 0 s (take_back w s')
unfolding take_back invalid
take_back-Counts k w s s' p ws c = elim (Option-cases (get_elem? s.workers w)) [
  | inl gone ↦
      let same : s'.workers ≡ s.workers = ws ∙ modify-none w invalid s.workers gone in
      let e : take_back w s' ≡ s' = rw (ap (λ l. get_elem? l w) same ∙ gone, take_back) in
      let q : total k s' ≡ total k s = rw (p, same, c) refl in
      rw e ((λ h. omega (arith, q)), (λ up h. omega (arith, q)))
  | inr (d, at) ↦
      let here : get_elem? s'.workers w ≡ some (invalid d) =
        ap (λ l. get_elem? l w) ws ∙ get_elem?-modify w invalid s.workers d at in
      let e : take_back w s' ≡ reschedule_all d.started_jobs s' = rw (here, take_back) in
      let (p', ws', c') = reschedule_all-lem k d.started_jobs s' in
      let m = running-modify k w invalid s.workers d at in
      let le = at_worker-le-running k w s.workers d at in
      let q : total k (reschedule_all d.started_jobs s') + at_worker k d
          ≡ total k s + copies k d.started_jobs =
        rw (p', ws', c', p, ws, c) (omega arith) in
      let small : at_worker k d ≤ copies k d.started_jobs = ground arith in
      rw e (
        (λ h. omega arith),
        (λ up h.
            let all : at_worker k d ≡ copies k d.started_jobs = rw (up d at) refl in omega arith),
      )
]

pub close-Counts :
    (k w : ℕ) (to_transfer : Option Bytes) (s s' : Launcher)
    → close w to_transfer s ≡ some s'
    → Counts (IsUp w s) k 0 s s'
unfolding close invalid invalidate
close-Counts k w none s s' e =
    subst (Counts (IsUp w s) k 0 s) (some_inj e)
      (take_back-Counts k w s (invalidate w s) refl refl refl)
close-Counts k w (some buf) s s' e = elim (Option-cases (on_worker_close w buf (invalidate w s))) [
  | inl bad ↦ let no : none ≡ some s' = rw (bad, close) at e in absurd (cc)
  | inr (t, q) ↦
      let (p, ws, c) = on_worker_close-lem w buf (invalidate w s) t q in
      subst (Counts (IsUp w s) k 0 s) (some_inj (rw (q, close) at e))
        (take_back-Counts k w s t p ws c)
]

pub response-Counts :
    (k w : ℕ) (h : PacketHeader) (body : Bytes) (s : Launcher)
    → Counts (IsUp w s) k 0 s (on_worker_response w h body s)
unfolding on_worker_response finish_job set_state
response-Counts k w h body s = elim (Option-cases (get_elem? s.workers w)) [
  | inl gone ↦ rw (gone, on_worker_response) ((λ h. omega arith), (λ up h. omega arith))
  | inr (d, at) ↦ elim (Option-cases (find_job h d.started_jobs)) [
    | inl gone ↦
        let e : on_worker_response w h body s ≡ s = rw (at, on_worker_response) (rw (gone) refl) in
        rw e ((λ h. omega arith), (λ up h. omega arith))
    | inr (j, found) ↦
        let e : on_worker_response w h body s ≡ finish_job w h body j s =
          rw (at, on_worker_response) (rw found refl) in
        let f : DfWorker → DfWorker = λ d. record d { started_jobs = erase_job h d.started_jobs } in
        let m = running-modify k w f s.workers d at in
        let le = at_worker-le-running k w s.workers d at in
        let erased = copies-erase k h d.started_jobs j found in
        let fewer : at_worker k d ≤ at_worker k (f d) + one k j = ground arith in
        rw e (
          (λ h. omega arith),
          (λ up h.
              let same : at_worker k (f d) + one k j ≡ at_worker k d =
                rw (up d at) (omega (arith, erased)) in
              omega arith),
        )
  ]
]

pub add_worker-lists :
    (info : Bytes) (s : Launcher)
    → ((add_worker info s).posted ≡ s.posted)
      × ((add_worker info s).workers
          ≡ s.workers ++ (record { valid = true; started_jobs = [] } ∷ []))
      × ((add_worker info s).completed ≡ s.completed)
unfolding add_worker
add_worker-lists info s = elim (List-cases s.transfer_requests) [
  | inl no_transfer ↦
      let p = ap (λ ts. add_worker info (record s { transfer_requests = ts })) no_transfer in
      (ap (λ x. x.posted) p, ap (λ x. x.workers) p, ap (λ x. x.completed) p)
  | inr (t, ts, e) ↦
      let p = ap (λ ts. add_worker info (record s { transfer_requests = ts })) e in
      (ap (λ x. x.posted) p, ap (λ x. x.workers) p, ap (λ x. x.completed) p)
]

pub add_worker-lem : (k : ℕ) (info : Bytes) (s : Launcher) → total k (add_worker info s) ≡ total k s
add_worker-lem k info s =
    let (p, ws, c) = add_worker-lists info s in
    let a = running-append k s.workers (record { valid = true; started_jobs = [] } ∷ []) in
    rw (p, ws, c) (omega (arith, a))

pub on_worker_ack-lists :
    (w : ℕ) (h : PacketHeader) (s : Launcher)
    → ((on_worker_ack w h s).posted ≡ s.posted)
      × ((on_worker_ack w h s).workers ≡ s.workers)
      × ((on_worker_ack w h s).completed ≡ s.completed)
unfolding on_worker_ack set_state
on_worker_ack-lists w h s = elim (Bool-cases (is_empty h)) [
  | inl empty ↦ rw (empty, on_worker_ack) (refl, refl, refl)
  | inr full ↦ elim (Option-cases (get_elem? s.workers w)) [
    | inl gone ↦ rw (full, on_worker_ack) (rw gone (refl, refl, refl))
    | inr (d, at) ↦ elim (Option-cases (find_job h d.started_jobs)) [
      | inl gone ↦ rw (full, on_worker_ack) (rw at (rw gone (refl, refl, refl)))
      | inr (j, found) ↦ rw (full, on_worker_ack) (rw at (rw found (refl, refl, refl)))
    ]
  ]
]

pub on_worker_ack-lem :
    (k w : ℕ) (h : PacketHeader) (s : Launcher) → total k (on_worker_ack w h s) ≡ total k s
on_worker_ack-lem k w h s = let (p, ws, c) = on_worker_ack-lists w h s in rw (p, ws, c) refl
