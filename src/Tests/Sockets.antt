-- ===== src/Tests/Sockets.antt =====
-- The socket's writer with two packets.
use slsfs.Prelude.{refl, ◌++◌, ◌++◌, ◌≤◌, ◌≤◌, ◌≡◌, ◌≡◌, length, List, true, ◌∷◌, []}
use slsfs.Bytes.{Bytes}
use slsfs.Writer.{SocketWriter, idle_writer, WriterEvent, writer_run}
use slsfs.Cache.Table.{same_bytes}
use slsfs.Proxy.Header.{PacketHeader, packet_header_full_key_compare, is_trigger}
use slsfs.Proxy.Topics.{ProxyServer, get_bucket, handle_events}
use slsfs.Proxy.Topics.Aliased.{finish_writes, messages_overwritten}
use slsfs.Writer.Fifo.{packets, written_in_order}
use slsfs.Writer.Race.{
  Pc, SharedWriter, new_writer, Access, Reach, forgotten, writing_both, packet_forgotten,
  two_writes_at_once,
}

-- Two calls, and a write that fails.
abbrev two_calls : List WriterEvent
two_calls = WriterEvent.write (1 ∷ []) ∷ WriterEvent.write (2 ∷ []) ∷ WriterEvent.ends true ∷ []

written_in_order_example :
    let s : SocketWriter = writer_run two_calls idle_writer in
    (length s.in_flight ≤ 1)
    × (s.ended ++ (s.in_flight ++ s.queue) ≡ packets two_calls)
    × (s.in_flight ≡ [] → s.errors ≡ 0 → s.ended ≡ packets two_calls)
written_in_order_example = written_in_order two_calls

packet_forgotten_example :
    Reach new_writer (forgotten (1 ∷ []) (2 ∷ []))
    × ((t : SharedWriter)
        → Access (forgotten (1 ∷ []) (2 ∷ [])) t
        → (r : Bytes) × (t ≡ record (forgotten (1 ∷ []) (2 ∷ [])) { threads = Pc.push r ∷ [] }))
packet_forgotten_example = packet_forgotten (1 ∷ []) (2 ∷ [])

two_writes_at_once_example : Reach new_writer (writing_both (1 ∷ []) (2 ∷ []))
two_writes_at_once_example = two_writes_at_once (1 ∷ []) (2 ∷ [])

abbrev header_k : PacketHeader
header_k = record {
  type = 2;
  key = 1 ∷ [];
  sequence = [];
  random_salt = 1 ∷ 1 ∷ 1 ∷ 1 ∷ [];
  datasize = 0;
}

-- Three messages wait, and the connection 0 listens.
abbrev three_messages : ProxyServer
three_messages = record {
  topics =
      (
        header_k,
        record {
          message_queue = (7 ∷ []) ∷ (8 ∷ []) ∷ (9 ∷ []) ∷ [];
          listener = 0 ∷ [];
          posted_bodies = [];
        },
      )
      ∷ [];
  memory = λ k. (header_k, []);
  fresh = 0;
  writers = λ k. record { queue = []; in_flight = []; ended = [] };
  posted = [];
}

messages_overwritten_example :
    let t : ProxyServer = handle_events header_k [] three_messages in
    let ack : PacketHeader = record header_k { type = 3 } in
    (finish_writes 3 t.memory (t.writers 0)).ended
    ≡ (ack, 7 ∷ []) ∷ (ack, 9 ∷ []) ∷ (ack, 9 ∷ []) ∷ []
unfolding get_bucket packet_header_full_key_compare same_bytes is_trigger
messages_overwritten_example =
    messages_overwritten header_k [] three_messages 0 (7 ∷ []) ((8 ∷ []) ∷ (9 ∷ []) ∷ []) refl refl
      refl refl refl
