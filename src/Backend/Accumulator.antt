-- ===== src/Backend/Accumulator.antt =====
-- The `result_accumulator` of `start_read` and the callbacks on it: the responses of a read come in any
-- order, and the last one answers.
pub mod Order
pub mod Slots
use slsfs.Backend.Split.{split}
use slsfs.Bytes.{Bytes}
use slsfs.Text.{codes}
use slsfs.Prelude.{
  length, ◌==◌, ◌==◌, ◌>>=◌, inr, inl, none, some, ◌++◌, ◌&&◌, List, Bool, replicate, if◌then◌else◌,
  refl, suc, zero, false, true, ◌∷◌, [], ℕ,
}

-- `buf_stat_t`
pub record BufStat : Type 0 where
  pub ready : Bool
  pub buf : Bytes

-- The accumulator, whether the deadline timer still waits, and the buffers that `next` was invoked with.
pub record Read : Type 0 where
  pub result_accumulator : List BufStat
  pub timer_waits : Bool
  pub replies : List Bytes

unfoldable pub start_accumulator : ℕ → Read
start_accumulator result_vector_size = record {
  result_accumulator = replicate result_vector_size (record { ready = false; buf = [] });
  timer_waits = true;
  replies = [];
}

-- `start_read` before its requests: a read of nothing is answered at once; another gets a place for each
-- block.
unfoldable pub begin_read : ℕ → ℕ → ℕ → Read
begin_read blocksize realpos readsize =
    if readsize == 0
    then record { result_accumulator = []; timer_waits = false; replies = [] ∷ [] }
    else start_accumulator (length (split blocksize realpos readsize))

-- `result_accumulator->at(index)` takes the data of a response.
unfoldable pub fill : ℕ → Bytes → List BufStat → List BufStat
fill i d [] = []
fill zero d (s ∷ ss) = record { ready = true; buf = d } ∷ ss
fill (suc i) d (s ∷ ss) = s ∷ fill i d ss

unfoldable pub all_ready : List BufStat → Bool
all_ready [] = true
all_ready (s ∷ ss) = s.ready && all_ready ss

unfoldable pub collect_ready : List BufStat → Bytes
collect_ready [] = []
collect_ready (s ∷ ss) = s.buf ++ collect_ready ss

-- The callback of the response at an index.
unfoldable pub on_read_response : ℕ → Bytes → Read → Read
on_read_response index buf r =
    let r : Read = record r { result_accumulator = fill index buf r.result_accumulator } in
    if all_ready r.result_accumulator
    then record r {
      timer_waits = false;
      replies = r.replies ++ (collect_ready r.result_accumulator ∷ []);
    }
    else r

abbrev pub read_timed_out : Bytes
read_timed_out = codes "Error: Read Request Timeout"

-- The timer's callback; a timer that was cancelled does nothing.
unfoldable pub on_read_timer : Read → Read
on_read_timer r =
    if r.timer_waits
    then record r { timer_waits = false; replies = r.replies ++ (read_timed_out ∷ []) }
    else r

unfoldable pub respond_each : List (ℕ × Bytes) → Read → Read
respond_each [] r = r
respond_each ((index, buf) ∷ rs) r = respond_each rs (on_read_response index buf r)
