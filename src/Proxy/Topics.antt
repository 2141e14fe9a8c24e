-- ===== src/Proxy/Topics.antt =====
-- `bucket` and `tcp_connection` of proxy/server.hpp: messages that clients put under a key and the clients
-- that wait for them. A connection is a number. A packet is an object that the writers of connections
-- refer to, and that is serialized when its write starts (proxy/socket-writer.hpp).
pub mod Aliased
pub mod Dispatch
use slsfs.Prelude.{
  ◌||◌, ◌||◌, length, ◌==◌, map, ◌==◌, ◌+◌, ◌++◌, ◌+◌, ◌++◌, List, ℕ, ◌>>=◌, if◌then◌else◌, refl,
  suc, zero, inr, inl, false, true, none, some, ◌∷◌, [],
}
use slsfs.Bytes.{Bytes}
use slsfs.Proxy.Header.{PacketHeader, packet_header_full_key_compare, is_trigger}

abbrev pub Memory : Type 0
Memory = ℕ → PacketHeader × Bytes

unfoldable pub store_packet : ℕ → PacketHeader × Bytes → Memory → Memory
store_packet r p memory k = if k == r then p else memory k

-- The writer of a connection: the packets that wait, and what was written.
pub record ClientWriter : Type 0 where
  pub queue : List ℕ
  pub in_flight : List (PacketHeader × Bytes)
  pub ended : List (PacketHeader × Bytes)

unfoldable pub write_next : Memory → ClientWriter → ClientWriter
write_next memory w = elim w.queue [
  | [] ↦ w
  | r ∷ rs ↦ record w { queue = rs; in_flight = memory r ∷ [] }
]

-- `is_writing_` is set while a write is in flight.
unfoldable pub write_packet_of : Memory → ℕ → ClientWriter → ClientWriter
write_packet_of memory r w =
    let pushed : ClientWriter = record w { queue = w.queue ++ (r ∷ []) } in
    elim w.in_flight [ [] ↦ write_next memory pushed | p ∷ ps ↦ pushed ]

-- The callback of a write that ended well.
unfoldable pub on_client_written : Memory → ClientWriter → ClientWriter
on_client_written memory w =
    write_next memory (record w { in_flight = []; ended = w.ended ++ w.in_flight })

pub record Bucket : Type 0 where
  pub message_queue : List Bytes
  pub listener : List ℕ
  pub posted_bodies : List Bytes

-- `posted` are the calls of `start_handle_events` that wait.
pub record ProxyServer : Type 0 where
  pub topics : List (PacketHeader × Bucket)
  pub memory : Memory
  pub fresh : ℕ
  pub writers : ℕ → ClientWriter
  pub posted : List (PacketHeader × Bytes)

abbrev pub empty_bucket : Bucket
empty_bucket = record { message_queue = []; listener = []; posted_bodies = [] }

unfoldable pub get_bucket : PacketHeader → List (PacketHeader × Bucket) → Bucket
get_bucket h [] = empty_bucket
get_bucket h ((k, b) ∷ ts) = if packet_header_full_key_compare h k then b else get_bucket h ts

-- What the reference that `get_bucket` gives is used for; a bucket that is not there is made.
unfoldable pub put_bucket :
    PacketHeader → Bucket → List (PacketHeader × Bucket) → List (PacketHeader × Bucket)
put_bucket h b [] = (h, b) ∷ []
put_bucket h b ((k, old) ∷ ts) =
    if packet_header_full_key_compare h k then (k, b) ∷ ts else (k, old) ∷ put_bucket h b ts

-- `start_write` of a packet on a connection.
unfoldable pub write_on : Memory → ℕ → (ℕ → ClientWriter) → ℕ → ℕ → ClientWriter
write_on memory r writers c k = if k == c then write_packet_of memory r (writers c) else writers k

-- `listener_(resp)`
unfoldable pub signal : Memory → ℕ → List ℕ → (ℕ → ClientWriter) → ℕ → ClientWriter
signal memory r [] writers = writers
signal memory r (c ∷ cs) writers = signal memory r cs (write_on memory r writers c)

-- `while (message_queue_.try_pop(resp->data)) listener_(resp);`
unfoldable pub deliver :
    PacketHeader
    → ℕ
    → List ℕ
    → List Bytes
    → Memory
    → (ℕ → ClientWriter)
    → Memory × (ℕ → ClientWriter)
deliver h r cs [] memory writers = (memory, writers)
deliver h r cs (m ∷ ms) memory writers =
    let memory = store_packet r (h, m) memory in
    deliver h r cs ms memory (signal memory r cs writers)

-- The posted call of `start_handle_events`, with the header and the data of its packet.
unfoldable pub handle_events : PacketHeader → Bytes → ProxyServer → ProxyServer
handle_events key body s =
    let b = get_bucket key s.topics in
    let header : PacketHeader = record key { type = 3 } in
    let r = s.fresh in
    let s : ProxyServer = record s { fresh = s.fresh + 1 } in
    if is_trigger header
    then record s {
      topics =
          put_bucket key
            (record b {
              message_queue = [];
              posted_bodies = b.posted_bodies ++ map (λ m. body) b.message_queue;
            })
            s.topics;
    }
    else if length b.listener == 0 || length b.message_queue == 0
    then s
    else (let (memory, writers) = deliver header r b.listener b.message_queue s.memory s.writers in
        record s {
          memory = memory;
          writers = writers;
          topics = put_bucket key (record b { message_queue = []; listener = [] }) s.topics;
        })

-- The posted call of `start_store`.
unfoldable pub start_store : ℕ → PacketHeader → Bytes → ProxyServer → ProxyServer
start_store c h body s =
    let b = get_bucket h s.topics in
    let memory = store_packet s.fresh (record h { type = 3 }, []) s.memory in
    record s {
      topics = put_bucket h (record b { message_queue = b.message_queue ++ (body ∷ []) }) s.topics;
      posted = s.posted ++ ((h, body) ∷ []);
      memory = memory;
      writers = write_on memory s.fresh s.writers c;
      fresh = s.fresh + 1;
    }

-- The posted call of `start_load`.
unfoldable pub start_load : ℕ → PacketHeader → ProxyServer → ProxyServer
start_load c h s =
    let b = get_bucket h s.topics in
    record s {
      topics = put_bucket h (record b { listener = b.listener ++ (c ∷ []) }) s.topics;
      posted = s.posted ++ ((h, []) ∷ []);
    }
