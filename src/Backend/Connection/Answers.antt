-- ===== src/Backend/Connection/Answers.antt =====
-- Whose callback gets the answers of a block server.
use slsfs.Prelude.{
  ◌∙◌, ◌∙◌, ap, ap₂, ◌^◌, ◌^◌, ◌%◌, ◌%◌, ==_refl, length, List, ◌≡◌, ℕ, ◌≡◌, refl, true, none, some,
  ◌∷◌, [],
}
use slsfs.Bytes.{Bytes}
use slsfs.Proxy.Header.HeaderBytes.{same_bytes_refl}
use slsfs.Ssbd.Kv.{Db}
use slsfs.Ssbd.Packet
use slsfs.Ssbd.Packet.{Header, IsHeader, Msg, Packet, code, msg_of, serialize}
use slsfs.Ssbd.Node.{Node, Outcome, start_read_header}
use slsfs.Ssbd.Protocol.Reply.{every_message_answered}
use slsfs.Backend.Connection.{
  Connection, same_request, find_request, erase_request, start_request, run_request, cancel,
  on_request_written, on_answer, cancel_all, close_connection,
}

start_request-new :
    (h : Header) (c : Connection)
    → find_request h c.outstanding ≡ none
    → start_request h c ≡ record c { outstanding = h ∷ c.outstanding }
unfolding start_request
start_request-new h c fresh = rw (fresh, start_request) refl

-- An answer with the request's header, whatever its type and size.
on_answer-first :
    (h : Header) (type size : ℕ) (data_buf : Bytes) (c : Connection) (rs : List Header)
    → c.outstanding ≡ h ∷ rs
    → on_answer (record h { type = type; datasize = size }) data_buf c
      ≡ some (record c { outstanding = rs; delivered = (h, type, data_buf) ∷ c.delivered })
unfolding on_answer run_request find_request erase_request same_request
on_answer-first h type size data_buf c rs front =
    let same : same_request (record h { type = type; datasize = size }) h ≡ true =
      rw (same_bytes_refl h.uuid, ==_refl h.blockid, same_bytes_refl h.salt) refl in
    let found : find_request (record h { type = type; datasize = size }) c.outstanding ≡ some h =
      rw (front, find_request) (rw same refl) in
    let left : erase_request (record h { type = type; datasize = size }) c.outstanding ≡ rs =
      rw (front, erase_request) (rw same refl) in
    rw (found, on_answer) (rw left refl)

-- A request whose file, block and salt no other request has that waits: what the block server answers to it
-- goes to the callback of the request, with the answer's type and data, and the others wait as before.
pub answer_reaches_its_request :
    (d : Db) (n n' : Node d) (h : Header) (body : Bytes) (m : Msg) (o : Outcome) (c : Connection)
    → IsHeader h
    → msg_of h.type ≡ some m
    → start_read_header d n h body ≡ some (n', o)
    → find_request h c.outstanding ≡ none
    → (p : Packet) × (c' : Connection) × (o.reply ≡ some p)
      × (on_answer (serialize p).0.header p.data_buf (start_request h c) ≡ some c')
      × (c'.delivered ≡ (h, p.header.type, p.data_buf) ∷ c.delivered)
      × (c'.outstanding ≡ c.outstanding)
unfolding serialize
answer_reaches_its_request d n n' h body m o c v t e fresh =
    let (p, reply, header, on) = every_message_answered d n n' h body m o v t e in
    let waiting : Connection = record c { outstanding = h ∷ c.outstanding } in
    let size = length p.data_buf % 2 ^ 32 in
    let with_size : Header → Header = λ x. record x { datasize = size } in
    let first = on_answer-first h p.header.type size p.data_buf waiting c.outstanding refl in
    (
      p,
      record c { delivered = (h, p.header.type, p.data_buf) ∷ c.delivered },
      reply,
      ap₂ (λ x y. on_answer x p.data_buf y) (ap with_size header) (start_request-new h c fresh)
          ∙ first,
      refl,
      refl,
    )

-- A request whose write fails is cancelled then and, as it still waits, once more when the connection is
-- closed: its callback runs twice. Here nothing else waits.
pub failed_request_cancelled_twice :
    (h : Header) (c : Connection)
    → c.outstanding ≡ []
    → (close_connection (on_request_written true h (start_request h c))).delivered
      ≡ (h, code Packet.err, []) ∷ (h, code Packet.err, []) ∷ c.delivered
unfolding close_connection on_request_written cancel_all cancel run_request start_request
    find_request
failed_request_cancelled_twice h c nothing =
    rw (nothing, start_request) (rw (nothing, cancel_all) refl)
