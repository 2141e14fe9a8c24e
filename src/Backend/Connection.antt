-- ===== src/Backend/Connection.antt =====
-- `ssbd` of functions/libslsfs/slsfs/backend-ssbd.hpp: the requests that wait for a block server's answer.
-- A job is the header of its request. `none` is the undefined behaviour of an answer to no request.
pub mod Answers
use slsfs.Prelude.{
  ◌==◌, ◌==◌, ◌&&◌, ◌&&◌, Option, ℕ, List, Bool, ◌>>=◌, if◌then◌else◌, refl, suc, zero, inr, inl,
  false, true, none, some, ◌∷◌, [],
}
use slsfs.Bytes.{Bytes}
use slsfs.Cache.Table.{same_bytes}
use slsfs.Ssbd.Packet
use slsfs.Ssbd.Packet.{Header, code}

-- `packet_header_key_compare`
unfoldable pub same_request : Header → Header → Bool
same_request a b = same_bytes a.uuid b.uuid && a.blockid == b.blockid && same_bytes a.salt b.salt

-- `outstanding_jobs_`, whether `start_read_loop` has been called, and the calls of the callbacks: the
-- request, the type and the data of the answer, the last one first.
pub record Connection : Type 0 where
  pub outstanding : List Header
  pub read_started : Bool
  pub delivered : List (Header × ℕ × Bytes)

unfoldable pub find_request : Header → List Header → Option Header
find_request h [] = none
find_request h (r ∷ rs) = if same_request h r then some r else find_request h rs

unfoldable pub erase_request : Header → List Header → List Header
erase_request h [] = []
erase_request h (r ∷ rs) = if same_request h r then rs else r ∷ erase_request h rs

-- `outstanding_jobs_.emplace`; the assertion is not compiled.
unfoldable pub start_request : Header → Connection → Connection
start_request h c = elim (find_request h c.outstanding) [
  | none ↦ record c { outstanding = h ∷ c.outstanding }
  | some old ↦ c
]

unfoldable pub run_request : Header → ℕ → Bytes → Connection → Connection
run_request r type data_buf c = record c { delivered = (r, type, data_buf) ∷ c.delivered }

-- `job::cancel`
unfoldable pub cancel : Header → Connection → Connection
cancel r c = run_request r (code Packet.err) [] c

-- The callback of the write of a request.
unfoldable pub on_request_written : Bool → Header → Connection → Connection
on_request_written error r c = if error then cancel r c else record c { read_started = true }

-- The callback of `start_read_one_body`, with the header and the data of the answer.
unfoldable pub on_answer : Header → Bytes → Connection → Option Connection
on_answer h data_buf c = elim (find_request h c.outstanding) [
  | none ↦ none
  | some r ↦
      let run = run_request r h.type data_buf c in
      some (record run { outstanding = erase_request h run.outstanding })
]

unfoldable pub cancel_all : List Header → Connection → Connection
cancel_all [] c = c
cancel_all (r ∷ rs) c = cancel_all rs (cancel r c)

-- `ssbd::close`
unfoldable pub close_connection : Connection → Connection
close_connection c = cancel_all c.outstanding c
