-- ===== src/Launcher/Assign.antt =====
-- `lowest_load` and `worker_filetoworker` of proxy/policy/: the worker that a file goes to.
pub mod Lowest
pub mod Active
use slsfs.Prelude.{
  ltb, ◌&&◌, Option, List, Bool, ◌>>=◌, if◌then◌else◌, refl, suc, zero, inr, inl, false, true, none,
  some, ◌∷◌, [], ℕ,
}

-- `df::worker`, as far as the policies ask it.
pub record Worker : Type 0 where
  pub worker_id : ℕ
  pub is_valid : Bool
  pub pending_jobs : ℕ

-- `std::numeric_limits<int>::max()`
abbrev pub int_max : ℕ
int_max = 2147483647

-- The loop of `lowest_load::get_available_worker`, with the best worker and its jobs so far.
unfoldable pub lowest_from : List Worker → Option Worker → ℕ → Option Worker
lowest_from [] best job = best
lowest_from (w ∷ ws) best job =
    let better = lowest_from ws (some w) w.pending_jobs in
    let same = lowest_from ws best job in
    if w.is_valid && ltb w.pending_jobs job then better else same

unfoldable pub get_available_worker : List Worker → Option Worker
get_available_worker ws = lowest_from ws none int_max
