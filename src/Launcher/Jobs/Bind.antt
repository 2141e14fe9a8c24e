-- ===== src/Launcher/Jobs/Bind.antt =====
-- Which worker the jobs of a file go to, and what becomes of them when workers close.
use slsfs.Prelude.{
  Option, ◌⊎◌, ◌⊎◌, Bool-cases, ◌++◌, false, true, [], Option-cases, ap, ◌∙◌, ◌∙◌, ◌≡◌, ◌≡◌, ℕ,
  refl, inr, inl, none, some, ◌∷◌,
}
use slsfs.Bytes.{Bytes}
use slsfs.Launcher.Pool.{FileToWorker, assigned, Sent, Job, Launcher, find_binding, emplace_binding}
use slsfs.Launcher.Jobs.{process_job, start_job, reschedule, valid_worker, picked}

-- A file that is not in transfer has the worker that the map gives.
assigned-find :
    (policy : FileToWorker) (key : Bytes) (s : Launcher)
    → policy.is_transferring s.notices key ≡ false
    → assigned policy key s ≡ find_binding key s.fileid_to_worker
unfolding assigned
assigned-find policy key s e = rw (e, assigned) refl

assigned-moving :
    (policy : FileToWorker) (key : Bytes) (s : Launcher)
    → policy.is_transferring s.notices key ≡ true
    → assigned policy key s ≡ none
unfolding assigned
assigned-moving policy key s e = rw (e, assigned) refl

pub assigned-none :
    (policy : FileToWorker) (key : Bytes) (s : Launcher)
    → find_binding key s.fileid_to_worker ≡ none
    → assigned policy key s ≡ none
unfolding assigned
assigned-none policy key s e = elim (Bool-cases (policy.is_transferring s.notices key)) [
  | inl moving ↦ assigned-moving policy key s moving
  | inr still ↦ assigned-find policy key s still ∙ e
]

module _ (policy : FileToWorker) where
  process_job-picked :
      (j : Job) (w : ℕ) (p : Option ℕ) (s : Launcher)
      → valid_worker (assigned policy j.header.key s) s.workers ≡ none
      → picked policy s ≡ some p
      → valid_worker p s.workers ≡ some w
      → process_job policy j s
        ≡ some (
            start_job w j
              (record s { fileid_to_worker = emplace_binding j.header.key w s.fileid_to_worker }))
  unfolding process_job
  process_job-picked j w p s e r q = rw (e, process_job) (rw r (rw q refl))

  pub process_job-waits :
      (j : Job) (p : Option ℕ) (s : Launcher)
      → valid_worker (assigned policy j.header.key s) s.workers ≡ none
      → picked policy s ≡ some p
      → valid_worker p s.workers ≡ none
      → process_job policy j s ≡ some (reschedule j s)
  unfolding process_job
  process_job-waits j p s e r q = rw (e, process_job) (rw r (rw q refl))

  pub process_job-stuck :
      (j : Job) (s : Launcher)
      → valid_worker (assigned policy j.header.key s) s.workers ≡ none
      → picked policy s ≡ none
      → process_job policy j s ≡ none
  unfolding process_job
  process_job-stuck j s e r = rw (e, process_job) (rw r refl)

-- Once the worker of a file is no longer valid, no job of the file binds it anew: with a policy that
-- returns, the binding stays, and the job goes to the valid worker that the policy picks, or, if it
-- picks none, is posted again.
pub stale_binding_stays :
    (policy : FileToWorker) (j : Job) (old : ℕ) (p : Option ℕ) (s : Launcher)
    → find_binding j.header.key s.fileid_to_worker ≡ some old
    → valid_worker (some old) s.workers ≡ none
    → picked policy s ≡ some p
    → (t : Launcher) × (process_job policy j s ≡ some t)
      × (t.fileid_to_worker ≡ s.fileid_to_worker)
      × (((w : ℕ) × (valid_worker p s.workers ≡ some w)
            × (t.sent ≡ (w, Sent.push_request j) ∷ s.sent)
            × (t.posted ≡ s.posted))
          ⊎ ((valid_worker p s.workers ≡ none)
              × (t.sent ≡ s.sent)
              × (t.posted ≡ s.posted ++ (j ∷ []))))
unfolding start_job reschedule emplace_binding valid_worker
stale_binding_stays policy j old p s bound gone r =
    let no_worker : valid_worker (assigned policy j.header.key s) s.workers ≡ none =
      elim (Bool-cases (policy.is_transferring s.notices j.header.key)) [
        | inl moving ↦
            ap (λ o. valid_worker o s.workers) (assigned-moving policy j.header.key s moving)
        | inr still ↦
            ap (λ o. valid_worker o s.workers) (assigned-find policy j.header.key s still ∙ bound)
            ∙ gone
      ] in
    let kept : (w : ℕ) → emplace_binding j.header.key w s.fileid_to_worker ≡ s.fileid_to_worker =
      λ w. rw (bound, emplace_binding) refl in
    elim (Option-cases (valid_worker p s.workers)) [
      | inl none_picked ↦ (
        reschedule j s,
        process_job-waits policy j p s no_worker r none_picked,
        refl,
        inr (none_picked, refl, refl),
      )
      | inr (w, q) ↦ (
        start_job w j
            (record s { fileid_to_worker = emplace_binding j.header.key w s.fileid_to_worker }),
        process_job-picked policy j w p s no_worker r q,
        kept w,
        inl (w, q, refl, refl),
      )
    ]
