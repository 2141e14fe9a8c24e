-- ===== src/Launcher/Launch.antt =====
-- `worker_launch` of proxy/policy/worker-launch.hpp and the policies built on it. The signed counters
-- are kept as what was added and what was taken away.
pub mod Delta
use slsfs.Prelude.{
  ◌*◌, ◌/◌, min, ◌||◌, ◌^◌, ◌%◌, ◌-◌, ◌==◌, ◌+◌, Option, ltb, max, ◌>>=◌, if◌then◌else◌, refl, suc,
  zero, inr, inl, false, true, none, some, ◌∷◌, [], ℕ,
}

-- `max_outstanding_starting_request_`, `starting_worker_count_` (`started - registered`), `starter_`,
-- and `default_pool_value_`.
pub record WorkerLaunch : Type 0 where
  pub max_outstanding : ℕ
  pub started : ℕ
  pub registered : ℕ
  pub starter : ℕ
  pub default_pool_value : ℕ

unfoldable pub starting_a_new_worker : WorkerLaunch → WorkerLaunch
starting_a_new_worker w = record w { started = w.started + 1 }

unfoldable pub registered_a_new_worker : WorkerLaunch → WorkerLaunch
registered_a_new_worker w = record w { registered = w.registered + 1 }

-- `schedule_a_new_job` and `reschedule_a_job`, with the number of workers.
unfoldable pub schedule_a_new_job : ℕ → WorkerLaunch → WorkerLaunch
schedule_a_new_job workers w = record w {
  starter = if workers == 0 then w.default_pool_value else 0;
}

unfoldable pub get_ideal_worker_count : WorkerLaunch → ℕ
get_ideal_worker_count w = w.starter

-- `max(ideal - (ws.size() + starting_worker_count_), 0)` and
-- `max(max_outstanding_starting_request_ - starting_worker_count_, 0)`; the smaller one is started.
unfoldable pub get_ideal_worker_count_delta : ℕ → ℕ → WorkerLaunch → ℕ
get_ideal_worker_count_delta ideal workers w =
    let should_start = (ideal + w.registered) - (workers + w.started) in
    let can_start = (w.max_outstanding + w.registered) - w.started in min should_start can_start

-- `worker_launch_fix_pool`
unfoldable pub fix_pool_ideal : WorkerLaunch → ℕ
fix_pool_ideal w = w.default_pool_value

-- `single_request`: as many workers as requests that are not finished.
pub record SingleRequest : Type 0 where
  pub base : WorkerLaunch
  pub scheduled : ℕ
  pub finished : ℕ

unfoldable pub single_request_schedule : ℕ → SingleRequest → SingleRequest
single_request_schedule workers s = record s {
  base = schedule_a_new_job workers s.base;
  scheduled = s.scheduled + 1;
}

unfoldable pub single_request_finish : SingleRequest → SingleRequest
single_request_finish s = record s { finished = s.finished + 1 }

unfoldable pub single_request_ideal : SingleRequest → ℕ
single_request_ideal s = max (get_ideal_worker_count s.base) (s.scheduled - s.finished)

-- What an `int` that was stored from a 64-bit quotient counts for in `std::max` with a count that is
-- not negative.
unfoldable pub as_int : ℕ → ℕ
as_int q = if ltb (q % 2 ^ 32) (2 ^ 31) then q % 2 ^ 32 else 0

-- `max_queue`: `queue_size_` is the sizes that were scheduled less those that were finished.
pub record MaxQueue : Type 0 where
  pub base : WorkerLaunch
  pub max_average_queue : ℕ
  pub scheduled_size : ℕ
  pub finished_size : ℕ
  pub ideal_worker_count : ℕ

unfoldable pub max_queue_schedule : ℕ → ℕ → MaxQueue → MaxQueue
max_queue_schedule workers datasize q = record q {
  base = schedule_a_new_job workers q.base;
  scheduled_size = q.scheduled_size + datasize;
}

unfoldable pub max_queue_finish : ℕ → MaxQueue → MaxQueue
max_queue_finish datasize q = record q { finished_size = q.finished_size + datasize }

-- `execute`: a quotient of unsigned integers, so a size below zero counts as a large one.
unfoldable pub max_queue_execute : MaxQueue → MaxQueue
max_queue_execute q = record q {
  ideal_worker_count =
      as_int
        ((q.scheduled_size + (2 ^ 64 - q.finished_size % 2 ^ 64)) % 2 ^ 64 / q.max_average_queue);
}

unfoldable pub max_queue_ideal : MaxQueue → ℕ
max_queue_ideal q = max (get_ideal_worker_count q.base) q.ideal_worker_count

-- `const_average_load`
pub record ConstAverageLoad : Type 0 where
  pub base : WorkerLaunch
  pub max_average_load : ℕ
  pub processed_size : ℕ
  pub ideal_worker_count : ℕ

-- `started_a_new_job` and `finished_a_job`
unfoldable pub average_load_job : ℕ → ConstAverageLoad → ConstAverageLoad
average_load_job datasize a = record a { processed_size = (a.processed_size + datasize) % 2 ^ 64 }

-- `execute`, after `duration` milliseconds; `none` is a division by 0.
unfoldable pub average_load_execute : ℕ → ConstAverageLoad → Option ConstAverageLoad
average_load_execute duration a =
    if duration == 0 || a.max_average_load == 0
    then none
    else some (record a {
      processed_size = 0;
      ideal_worker_count =
          as_int (a.processed_size * 1000 % 2 ^ 64 / duration / a.max_average_load);
    })

unfoldable pub average_load_ideal : ConstAverageLoad → ℕ
average_load_ideal a = max (get_ideal_worker_count a.base) a.ideal_worker_count
