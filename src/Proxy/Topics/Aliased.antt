-- ===== src/Proxy/Topics/Aliased.antt =====
-- What a client gets when several messages wait for it: the loop of `start_handle_events` writes every
-- message into the same packet.
use slsfs.Prelude.{
  arith, ◌==◌, ap₂, false, append_assoc, append-nil, ◌∙◌, ◌∙◌, sym, ap, length, replicate, ◌++◌,
  ==_refl, ◌≡◌, ◌≡◌, ℕ, List, refl, suc, zero, ◌∷◌, [],
}
use slsfs.Bytes.{Bytes}
use slsfs.Proxy.Header.{is_trigger, PacketHeader}
use slsfs.Proxy.Topics.{
  get_bucket, ProxyServer, handle_events, Memory, ClientWriter, store_packet, write_next,
  write_packet_of, write_on, on_client_written, signal, deliver,
}

abbrev pub last_of : Bytes → List Bytes → Bytes
last_of m [] = m
last_of m (x ∷ xs) = last_of x xs

-- So many writes that end well, one after the other.
abbrev pub finish_writes : ℕ → Memory → ClientWriter → ClientWriter
finish_writes zero memory w = w
finish_writes (suc n) memory w = finish_writes n memory (on_client_written memory w)

store_packet-same :
    (r : ℕ) (p : PacketHeader × Bytes) (memory : Memory) → store_packet r p memory r ≡ p
unfolding store_packet
store_packet-same r p memory = rw (==_refl r) refl

deliver-last :
    (h : PacketHeader) (r : ℕ) (cs : List ℕ) (m : Bytes) (ms : List Bytes) (memory : Memory)
    (writers : ℕ → ClientWriter)
    → (deliver h r cs (m ∷ ms) memory writers).0 r ≡ (h, last_of m ms)
unfolding deliver
deliver-last h r cs m [] memory writers = store_packet-same r (h, m) memory
deliver-last h r cs m (x ∷ xs) memory writers =
    let memory1 = store_packet r (h, m) memory in
    deliver-last h r cs x xs memory1 (signal memory1 r cs writers)

-- A packet for a connection that writes waits.
write_on-busy :
    (memory : Memory) (r c : ℕ) (writers : ℕ → ClientWriter) (x : PacketHeader × Bytes)
    → (writers c).in_flight ≡ x ∷ []
    → write_on memory r writers c c ≡ record (writers c) { queue = (writers c).queue ++ (r ∷ []) }
unfolding write_on write_packet_of
write_on-busy memory r c writers x busy =
    let flying : List (PacketHeader × Bytes) → ClientWriter =
      λ f. record (writers c) { queue = (writers c).queue ++ (r ∷ []); in_flight = f } in
    rw (==_refl c) (rw (busy, write_packet_of) (ap flying busy))

-- The messages that come while the connection writes.
deliver-busy :
    (h : PacketHeader) (r c : ℕ) (ms : List Bytes) (memory : Memory) (writers : ℕ → ClientWriter)
    (x : PacketHeader × Bytes)
    → (writers c).in_flight ≡ x ∷ []
    → (deliver h r (c ∷ []) ms memory writers).1 c
      ≡ record (writers c) { queue = (writers c).queue ++ replicate (length ms) r }
unfolding deliver signal
deliver-busy h r c [] memory writers x busy =
    ap (λ q. record (writers c) { queue = q }) (sym (append-nil (writers c).queue))
deliver-busy h r c (m ∷ ms) memory writers x busy =
    let memory1 = store_packet r (h, m) memory in
    let writers1 = write_on memory1 r writers c in
    let here = write_on-busy memory1 r c writers x busy in
    let more : ClientWriter → ClientWriter =
      λ w. record w { queue = w.queue ++ replicate (length ms) r } in
    let waiting : List ℕ → ClientWriter = λ q. record (writers c) { queue = q } in
    deliver-busy h r c ms memory1 writers1 x (ap (λ w. w.in_flight) here ∙ busy)
    ∙ ap more here
    ∙ ap waiting (append_assoc (writers c).queue (r ∷ []) (replicate (length ms) r))

finish_writes-queued :
    (n r : ℕ) (memory : Memory) (w : ClientWriter) (x : PacketHeader × Bytes)
    → w.queue ≡ replicate n r
    → w.in_flight ≡ x ∷ []
    → (finish_writes (suc n) memory w).ended ≡ w.ended ++ (x ∷ replicate n (memory r))
unfolding on_client_written write_next
finish_writes-queued zero r memory w x q f = rw (q, write_next) (ap (λ l. w.ended ++ l) f)
finish_writes-queued (suc n) r memory w x q f =
    let w1 : ClientWriter = record {
      queue = replicate n r;
      in_flight = memory r ∷ [];
      ended = w.ended ++ w.in_flight;
    } in
    let next : on_client_written memory w ≡ w1 = rw (q, write_next) refl in
    ap (λ v. (finish_writes (suc n) memory v).ended) next
    ∙ finish_writes-queued n r memory w1 (memory r) refl refl
    ∙ append_assoc w.ended w.in_flight (memory r ∷ replicate n (memory r))
    ∙ ap (λ l. w.ended ++ (l ++ (memory r ∷ replicate n (memory r)))) f

-- The first message, for a connection that has nothing to write.
write_on-idle :
    (memory : Memory) (r c : ℕ) (writers : ℕ → ClientWriter)
    → (writers c).queue ≡ []
    → (writers c).in_flight ≡ []
    → write_on memory r writers c c
      ≡ record { queue = []; in_flight = memory r ∷ []; ended = (writers c).ended }
unfolding write_on write_packet_of write_next
write_on-idle memory r c writers q f =
    rw (==_refl c) (rw (f, write_packet_of) (rw (q, write_next) refl))

-- When messages wait under a key that is no trigger, the only client that listens there is idle, and its
-- writes end well, the client gets the first message and then, for each further one, the last one.
pub messages_overwritten :
    (key : PacketHeader) (body : Bytes) (s : ProxyServer) (c : ℕ) (m : Bytes) (ms : List Bytes)
    → is_trigger key ≡ false
    → (get_bucket key s.topics).listener ≡ c ∷ []
    → (get_bucket key s.topics).message_queue ≡ m ∷ ms
    → (s.writers c).queue ≡ []
    → (s.writers c).in_flight ≡ []
    → let t : ProxyServer = handle_events key body s in
      let ack : PacketHeader = record key { type = 3 } in
      (finish_writes (suc (length ms)) t.memory (t.writers c)).ended
      ≡ (s.writers c).ended ++ ((ack, m) ∷ replicate (length ms) (ack, last_of m ms))
unfolding handle_events deliver signal is_trigger
messages_overwritten key body s c m ms off l q idle free =
    let ack : PacketHeader = record key { type = 3 } in
    let r = s.fresh in
    let memory1 = store_packet r (ack, m) s.memory in
    let writers1 = write_on memory1 r s.writers c in
    let (memory2, writers2) = deliver ack r (c ∷ []) ms memory1 writers1 in
    let started : writers1 c
        ≡ record { queue = []; in_flight = memory1 r ∷ []; ended = (s.writers c).ended } =
      write_on-idle memory1 r c s.writers idle free in
    let queued : writers2 c
        ≡ record (writers1 c) { queue = (writers1 c).queue ++ replicate (length ms) r } =
      deliver-busy ack r c ms memory1 writers1 (memory1 r) (ap (λ w. w.in_flight) started) in
    let first : memory1 r ≡ (ack, m) = store_packet-same r (ack, m) s.memory in
    let last : memory2 r ≡ (ack, last_of m ms) =
      deliver-last ack r (c ∷ []) m ms s.memory s.writers in
    let ends =
      finish_writes-queued (length ms) r memory2 (writers2 c) (memory1 r)
        (ap (λ w. w.queue) queued ∙ ap (λ w. w.queue ++ replicate (length ms) r) started)
        (ap (λ w. w.in_flight) queued ∙ ap (λ w. w.in_flight) started) in
    let some_message : (length (m ∷ ms) == 0) ≡ false = ground arith in
    rw off (
      rw l (
        rw q (
          rw some_message (
            ends
            ∙ ap (λ w. w.ended ++ (memory1 r ∷ replicate (length ms) (memory2 r))) queued
            ∙ ap (λ w. w.ended ++ (memory1 r ∷ replicate (length ms) (memory2 r))) started
            ∙ ap₂ (λ x y. (s.writers c).ended ++ (x ∷ replicate (length ms) y)) first last))))
