-- ===== src/Backend/Coordinator.antt =====
-- The counters and callbacks of `start_2pc_prepare` and `start_2pc_commit`: what the coordinator of a
-- write does as it sends its requests, as the responses come in, and when its timer runs out.
pub mod Count
use slsfs.Text.{codes}
use slsfs.Bytes.{Bytes}
use slsfs.Prelude.{
  ltb, ◌&&◌, ◌==◌, ◌-◌, ◌++◌, ◌+◌, List, Option, Bool, ◌>>=◌, if◌then◌else◌, refl, suc, zero, inr,
  inl, false, true, none, some, ◌∷◌, [], ℕ,
}
use slsfs.Ssbd.Packet
use slsfs.Ssbd.Packet.{code, Msg}

-- `outstanding_requests`, `all_ssbd_agree`, whether the deadline timer still waits, whether `recoder_`
-- holds the file, the buffers that `next` was invoked with, and the `all_ssbd_agree` that each call of
-- `start_2pc_commit` got.
pub record Write : Type 0 where
  pub outstanding : ℕ
  pub all_ssbd_agree : Bool
  pub timer_waits : Bool
  pub is_checked : Bool
  pub replies : List Bytes
  pub commits : List Bool

abbrev pub ok : Bytes
ok = codes "OK"

abbrev pub found_pending : Bytes
found_pending = codes "Error: Found Pending 2PC Log"

abbrev pub timed_out : Bytes
timed_out = codes "Error: request timeout internally"

unfoldable pub start : Bool → Write
start checked = record {
  outstanding = 0;
  all_ssbd_agree = true;
  timer_waits = true;
  is_checked = checked;
  replies = [];
  commits = [];
}

-- `(*outstanding_requests)++` and `start_send_request`
unfoldable pub send : Write → Write
send w = record w { outstanding = w.outstanding + 1 }

-- The `switch` on the response's type.
unfoldable pub agrees : Option Msg → Bool
agrees (some Packet.two_pc_prepare_agree) = true
agrees other = false

-- What the last response does.
unfoldable pub finish : Write → Write
finish w = record w {
  timer_waits = false;
  is_checked = w.all_ssbd_agree;
  replies = w.replies ++ ((if w.all_ssbd_agree then ok else found_pending) ∷ []);
  commits = w.commits ++ (w.all_ssbd_agree ∷ []);
}

-- The callback of one response. It runs only for a request that was sent, so the count is not 0.
unfoldable pub on_response : Option Msg → Write → Write
on_response type w =
    let w = record w {
      outstanding = w.outstanding - 1;
      all_ssbd_agree = if agrees type then w.all_ssbd_agree else false;
    } in
    if w.outstanding == 0 then finish w else w

-- The timer's callback; a timer that was cancelled does nothing.
unfoldable pub on_timer : Write → Write
on_timer w =
    if w.timer_waits
    then record w {
      timer_waits = false;
      is_checked = false;
      replies = w.replies ++ (timed_out ∷ []);
    }
    else w

unfoldable pub send_all : ℕ → Write → Write
send_all zero w = w
send_all (suc n) w = send_all n (send w)

unfoldable pub respond_all : List (Option Msg) → Write → Write
respond_all [] w = w
respond_all (t ∷ ts) w = respond_all ts (on_response t w)

-- The second phase: `start_2pc_commit` with no `next`, counted down by its responses, whatever they
-- say. The flag tells whether `start_replication` was called.
pub record Commit : Type 0 where
  pub left : ℕ
  pub all_agree : Bool
  pub replicated : Bool

unfoldable pub on_commit_response : ℕ → Commit → Commit
on_commit_response replication_size c =
    let c = record c { left = c.left - 1 } in
    if c.left == 0 && (c.all_agree && ltb 1 replication_size)
    then record c { replicated = true }
    else c
