-- ===== src/Launcher/Assign/Lowest.antt =====
-- The worker that `lowest_load` picks.
use slsfs.Launcher.Assign.{int_max, Worker, get_available_worker, lowest_from}
use slsfs.Prelude.{
  sym, subst, refl, Bool-cases, ◌⊎◌, ltb, ◌&&◌, ◌<◌, arith, ◌≤◌, ◌≡◌, All, List, Option, inr, inl,
  false, true, none, some, ◌∷◌, [], ℕ,
}

abbrev pub jobs_of : Option Worker → ℕ
jobs_of none = int_max
jobs_of (some w) = w.pending_jobs

-- No valid worker of the list has fewer than `job` jobs.
abbrev pub AtLeast : ℕ → List Worker → Type 0
AtLeast job = All (λ w. w.is_valid ≡ true → job ≤ w.pending_jobs)

abbrev pub Usable : Option Worker → Type 0
Usable none = Unit
Usable (some w) = (w.is_valid ≡ true) × (w.pending_jobs < int_max)

-- `r` is as good as `best`, and no worker of the list is better.
abbrev Improves : List Worker → Option Worker → Option Worker → Type 0
Improves ws best r = (jobs_of r ≤ jobs_of best) × AtLeast (jobs_of r) ws × Usable r

lowest_from_lem :
    (ws : List Worker) (best : Option Worker)
    → Usable best
    → Improves ws best (lowest_from ws best (jobs_of best))
unfolding lowest_from
lowest_from_lem [] best u = (omega arith, tt, u)
lowest_from_lem (w ∷ ws) best u =
    by_test (Bool-cases (w.is_valid && ltb w.pending_jobs (jobs_of best))) (lowest_from_lem ws)
  where
    below : (b : Option Worker) → Usable b → jobs_of b ≤ int_max
    below none v = omega arith
    below (some b) v = omega (arith, v.1)

    by_test :
        ((w.is_valid && ltb w.pending_jobs (jobs_of best)) ≡ true)
          ⊎ ((w.is_valid && ltb w.pending_jobs (jobs_of best)) ≡ false)
        → ((b : Option Worker) → Usable b → Improves ws b (lowest_from ws b (jobs_of b)))
        → Improves (w ∷ ws) best (lowest_from (w ∷ ws) best (jobs_of best))
    by_test (inl on) ih =
        let valid : w.is_valid ≡ true = ground (arith, on) in
        let fewer : w.pending_jobs < jobs_of best = ground (arith, on) in
        let (le, rest, usable) = ih (some w) (valid, omega (arith, fewer, below best u)) in
        let e : lowest_from (w ∷ ws) best (jobs_of best) ≡ lowest_from ws (some w) w.pending_jobs =
          rw (on, lowest_from) refl in
        subst (Improves (w ∷ ws) best) (sym e) (omega (arith, le, fewer), ((λ v. le), rest), usable)
    by_test (inr off) ih =
        let (le, rest, usable) = ih best u in
        let e : lowest_from (w ∷ ws) best (jobs_of best) ≡ lowest_from ws best (jobs_of best) =
          rw (off, lowest_from) refl in
        subst (Improves (w ∷ ws) best) (sym e)
          (le, ((λ v. ground (arith, off, v, le)), rest), usable)

-- The worker that is picked is valid, and no valid worker has fewer pending jobs; where none is
-- picked, no valid worker has less than the largest `int` of them.
pub get_available_worker_lem :
    (ws : List Worker)
    → AtLeast (jobs_of (get_available_worker ws)) ws × Usable (get_available_worker ws)
unfolding get_available_worker
get_available_worker_lem ws =
    let (le, least, usable) = lowest_from_lem ws none tt in (least, usable)
