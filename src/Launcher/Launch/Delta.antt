-- ===== src/Launcher/Launch/Delta.antt =====
-- How many workers are started.
use slsfs.Launcher.Launch.{get_ideal_worker_count_delta, starting_a_new_worker, WorkerLaunch}
use slsfs.Prelude.{
  dec_le, ◌⊎◌, ◌⊎◌, ◌≤◌, ◌≤◌, ◌-◌, inr, inl, ◌∙◌, arith, ap, ◌+◌, ◌≡◌, suc, zero, ℕ,
}

-- The launcher starts that many workers, one after the other.
abbrev pub starting : ℕ → WorkerLaunch → WorkerLaunch
starting zero w = w
starting (suc n) w = starting n (starting_a_new_worker w)

starting_lem : (n : ℕ) (w : WorkerLaunch) → starting n w ≡ record w { started = w.started + n }
unfolding starting_a_new_worker
starting_lem zero w = ap (λ k. record w { started = k }) (omega arith)
starting_lem (suc n) w =
    starting_lem n (starting_a_new_worker w) ∙ ap (λ k. record w { started = k }) (omega arith)

-- How many workers are being started.
abbrev pub outstanding : WorkerLaunch → ℕ
outstanding w = w.started - w.registered

-- Where no more workers registered than were started, no more are being started than may be, and the
-- workers and those being started are no more than are wanted: when the workers that the policy asks for
-- are being started too, both still hold, and one of the two limits is reached.
pub delta_reaches_limit :
    (ideal workers : ℕ) (w : WorkerLaunch)
    → w.registered ≤ w.started
    → outstanding w ≤ w.max_outstanding
    → workers + outstanding w ≤ ideal
    → let after : WorkerLaunch = starting (get_ideal_worker_count_delta ideal workers w) w in
      (outstanding after ≤ w.max_outstanding)
      × (workers + outstanding after ≤ ideal)
      × ((outstanding after ≡ w.max_outstanding) ⊎ (workers + outstanding after ≡ ideal))
unfolding get_ideal_worker_count_delta
delta_reaches_limit ideal workers w le few room =
    let e = starting_lem (get_ideal_worker_count_delta ideal workers w) w in
    rw e (omega arith, omega arith, limit)
  where
    limit :
        (((w.started + get_ideal_worker_count_delta ideal workers w) - w.registered)
          ≡ w.max_outstanding)
        ⊎ (workers + ((w.started + get_ideal_worker_count_delta ideal workers w) - w.registered)
            ≡ ideal)
    limit = elim (dec_le (ideal - (workers + outstanding w)) (w.max_outstanding - outstanding w)) [
      | yes few ↦ inr (omega arith)
      | no many ↦ inl (omega arith)
    ]
