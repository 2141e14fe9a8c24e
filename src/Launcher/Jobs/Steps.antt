-- ===== src/Launcher/Jobs/Steps.antt =====
-- What any callback does to the number of a job's copies.
use slsfs.Prelude.{
  refl, Option-cases, ap, arith, subst, ◌+◌, ◌+◌, some_inj, All, List, ◌≡◌, ℕ, ◌≡◌, suc, zero, inr,
  inl, false, true, none, some, ◌∷◌, [],
}
use slsfs.Bytes.{Bytes}
use slsfs.Launcher.Pool.{FileToWorker, Job, Launcher, pull}
use slsfs.Launcher.Jobs.{on_file_finished, Event, step, schedule, on_job_timer}
use slsfs.Launcher.Jobs.Copies.{one, Named, copies-append, copies-pull}
use slsfs.Launcher.Jobs.Conserve.{total, AllNamed, process_job-Keeps, reschedule-Keeps}
use slsfs.Launcher.Jobs.Once.{
  Counts, IsUp, close-Counts, response-Counts, add_worker-lem, on_worker_ack-lem,
}

-- The callbacks that come once: a worker that closes or answers is valid, and no timer fails.
abbrev pub IsClean : Event → Launcher → Type 0
IsClean (Event.closed w t) s = IsUp w s
IsClean (Event.responded w h body) s = IsUp w s
IsClean (Event.timer error j) s = error ≡ false
IsClean (Event.scheduled j) s = Unit
IsClean (Event.file_finished key) s = Unit
IsClean (Event.processed i) s = Unit
IsClean (Event.acked w h) s = Unit
IsClean (Event.added info) s = Unit

abbrev pub scheduled_by : ℕ → Event → ℕ
scheduled_by k (Event.scheduled j) = one k j
scheduled_by k e = 0

abbrev pub NamedEvent : (Bytes → Bytes → Bytes → ℕ) → Event → Type 0
NamedEvent ident (Event.scheduled j) = Named ident j
NamedEvent ident (Event.timer error j) = Named ident j
NamedEvent ident e = Unit

pub All-pull :
    (P : Job → Type 0) (i : ℕ) (js : List Job) (j : Job) (rest : List Job)
    → All P js
    → pull i js ≡ some (j, rest)
    → P j × All P rest
unfolding pull
All-pull P i [] j rest h e = absurd (cc)
All-pull P zero (x ∷ xs) j rest h e =
    let p = some_inj e in (subst P (ap (λ q. q.0) p) h.0, subst (All P) (ap (λ q. q.1) p) h.1)
All-pull P (suc i) (x ∷ xs) j rest h e = elim (Option-cases (pull i xs)) [
  | inl gone ↦ let no : none ≡ some (j, rest) = rw gone at e in absurd (cc)
  | inr ((y, ys), q) ↦
      let p = some_inj (rw q at e) in
      let (hy, hys) = All-pull P i xs y ys h.1 q in
      (subst P (ap (λ q. q.0) p) hy, subst (All P) (ap (λ q. q.1) p) (h.0, hys))
]

pub step-Counts :
    (ident : Bytes → Bytes → Bytes → ℕ) (policy : FileToWorker) (k : ℕ) (e : Event)
    (s s' : Launcher)
    → AllNamed ident s
    → step policy e s ≡ some s'
    → Counts (IsClean e s) k (scheduled_by k e) s s'
unfolding step schedule on_job_timer on_file_finished
step-Counts ident policy k (Event.scheduled j) s s' n e =
    let a = copies-append k s.posted (j ∷ []) in
    let q : total k s' ≡ total k s + one k j = rw (← some_inj e) (omega (arith, a)) in
    ((λ h. omega arith), (λ c h. q))
step-Counts ident policy k (Event.processed i) s s' n e = elim (Option-cases (pull i s.posted)) [
  | inl gone ↦
      let p : s ≡ s' = some_inj (rw (gone, step) at e) in
      rw (← p) ((λ h. omega arith), (λ c h. omega arith))
  | inr ((j, rest), q) ↦
      let t : Launcher = record s { posted = rest } in
      let (nj, nrest) = All-pull (Named ident) i s.posted j rest n.posted_named q in
      let (lo, there, hi) =
        process_job-Keeps ident policy k j t s'
          (record { posted_named = nrest; workers_named = n.workers_named }) nj
          (rw (q, step) at e) in
      let out = copies-pull k i s.posted j rest q in ((λ h. omega arith), (λ c h. omega arith))
]
step-Counts ident policy k (Event.timer true j) s s' n e =
    let (lo, there, hi) = reschedule-Keeps ident k j s in
    rw (← some_inj e) ((λ h. omega arith), (λ c h. cc))
step-Counts ident policy k (Event.timer false j) s s' n e =
    rw (← some_inj e) ((λ h. omega arith), (λ c h. omega arith))
step-Counts ident policy k (Event.closed w t) s s' n e = close-Counts k w t s s' e
step-Counts ident policy k (Event.acked w h) s s' n e =
    let q : total k s' ≡ total k s = rw (← some_inj e) (on_worker_ack-lem k w h s) in
    ((λ h. omega arith), (λ c h. omega arith))
step-Counts ident policy k (Event.responded w h body) s s' n e =
    subst (Counts (IsUp w s) k 0 s) (some_inj e) (response-Counts k w h body s)
step-Counts ident policy k (Event.added info) s s' n e =
    let q : total k s' ≡ total k s = rw (← some_inj e) (add_worker-lem k info s) in
    ((λ h. omega arith), (λ c h. omega arith))
step-Counts ident policy k (Event.file_finished key) s s' n e =
    let q : total k s' ≡ total k s = rw (← some_inj e) refl in
    ((λ h. omega arith), (λ c h. omega arith))
