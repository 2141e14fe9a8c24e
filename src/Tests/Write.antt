-- ===== src/Tests/Write.antt =====
-- The coordinator's theorems at a write of three bytes across the boundary of two blocks.
use slsfs.Ssbd.Key.{as_string}
use slsfs.Ssbd.Protocol.Safety.{start_read_header_safe}
use slsfs.Backend.Requests.{
  replication_request, sent_message, collect, read_messages, commit_messages, reply_type,
  prepare_messages,
}
use slsfs.Ssbd.Protocol.{Message, run}
use slsfs.Backend.Replica.Copies.{copy_gets_no_data, replication-IsMessage, copies_from-in_range}
use slsfs.Backend.Coordinator.Count.{early_response_decides_twice, one_decision, unanimous}
use slsfs.Backend.WriteRead.{write_then_read, Writable}
use slsfs.Ssbd.Kv.{bytes_or_empty}
use slsfs.Tests.{empty, written_a, memory, uuid_a}
use slsfs.Bytes.{IsByte, Bytes}
use slsfs.Backend.Replica.{copies_from, backend_list, Engine}
use slsfs.Backend.Coordinator.{
  ok, found_pending, start, send, send_all, on_response, respond_all, agrees,
}
use slsfs.Ssbd.Node.{start_read_header, Outcome, Node}
use slsfs.Ssbd.Node.View.{view}
use slsfs.Ssbd.Spec.{BlockState}
use slsfs.Backend.Requests.Wire.{ChunkFits, block_key, IsRequest}
use slsfs.Backend.Split.{split, Chunk}
use slsfs.Prelude.{
  ◌∙◌, sym, ap, get_or, map, ◌^◌, All-replicate, ◌≤◌, min, ◌<◌, arith, ◌≡◌, ◌+◌, All, length, List,
  refl, inr, false, true, some, ◌∷◌, [], ℕ,
}
use slsfs.Ssbd.Packet
use slsfs.Ssbd.Packet.{Msg, code}

abbrev salt_a : Msg → Chunk → Bytes
salt_a m c = 1 ∷ 2 ∷ 3 ∷ 4 ∷ []

IsRequest-a : IsRequest salt_a uuid_a 7 4 6 3
IsRequest-a = record {
  salt_size = λ m c. refl;
  salt_bytes = λ m c. (omega arith, (omega arith, (omega arith, (omega arith, tt))));
  uuid_size = refl;
  uuid_bytes = All-replicate IsByte 32 65 (omega arith);
  version_fits = omega arith;
  blocks = omega arith;
  offset_fits = omega arith;
  in_range = omega arith;
}

unasked : (b : BlockState) → length (bytes_or_empty b.content) < 2 ^ 32 → Writable true b
unasked b small = record { free = inr refl; old_size = small }

empty-small : (k : Bytes) → length (bytes_or_empty (view memory empty k).content) < 2 ^ 32
unfolding view bytes_or_empty
empty-small k = omega arith

All-Writable :
    (cs : List Chunk) → All (λ c. Writable true (view memory empty (block_key uuid_a c))) cs
All-Writable [] = tt
All-Writable (c ∷ cs) = (unasked _ (empty-small (block_key uuid_a c)), All-Writable cs)

write_then_read_example :
    (n1 : Node memory) × (os1 : List Outcome) × (n2 : Node memory) × (os2 : List Outcome)
    × (n3 : Node memory) × (os3 : List Outcome) × (run memory empty
          (prepare_messages salt_a (λ c. true) uuid_a 7 written_a (split 4 6 3))
        ≡ some (n1, os1))
    × (unanimous (map reply_type os1) ≡ true)
    × (run memory n1 (commit_messages salt_a true uuid_a 7 (split 4 6 3)) ≡ some (n2, os2))
    × (run memory n2 (read_messages salt_a uuid_a (split 4 6 3)) ≡ some (n3, os3))
    × (collect os3 ≡ written_a)
write_then_read_example =
    write_then_read memory salt_a (λ c. true) uuid_a 7 4 6 written_a IsRequest-a empty
      (All-Writable (split 4 6 3))

one_decision_example :
    let w =
      respond_all
        (some Packet.two_pc_prepare_agree ∷ some Packet.two_pc_prepare_abort ∷ [])
        (send_all 2 (start true)) in
    (w.replies ≡ found_pending ∷ [])
    × (w.commits ≡ false ∷ [])
    × (w.is_checked ≡ false)
    × (w.timer_waits ≡ false)
    × (w.outstanding ≡ 0)
unfolding agrees
one_decision_example =
    one_decision (some Packet.two_pc_prepare_agree) (some Packet.two_pc_prepare_abort ∷ []) true

early_response_decides_twice_example :
    let w =
      on_response
        (some Packet.two_pc_prepare_abort)
        (send (on_response (some Packet.two_pc_prepare_agree) (send (start true)))) in
    (w.replies ≡ ok ∷ found_pending ∷ []) × (w.commits ≡ true ∷ false ∷ [])
unfolding agrees
early_response_decides_twice_example =
    early_response_decides_twice (some Packet.two_pc_prepare_abort) true

-- A block of 6 bytes has no copy yet.
abbrev chunk_a : Chunk
chunk_a = record { blockid = 1; offset = 2; size = 2; start = 0 }

chunk_fits : ChunkFits 3 chunk_a
chunk_fits = record {
  blockid_fits = omega arith;
  offset_fits = omega arith;
  size_fits = omega arith;
  in_data = omega arith;
  inside_block = omega arith;
}

abbrev counter : Engine
counter = record {
  State = ℕ;
  seed = length;
  discard = ◌+◌;
  uniform = λ n s. min n s;
  uniform-le = λ n s. omega arith;
}

copies_from-in_range_example :
    (is : List ℕ) × (copies_from counter 2 uuid_a 1 2 1 ≡ some is)
    × (length is ≡ 2)
    × All (λ i. (2 ≤ i) × (i < length (backend_list {A = ℕ} (1 ∷ 2 ∷ [])))) is
copies_from-in_range_example =
    copies_from-in_range counter {A = ℕ} (1 ∷ 2 ∷ []) uuid_a 1 2 1 (omega arith) (omega arith)

abbrev copy_a : Message
copy_a = sent_message (replication_request salt_a uuid_a 7 chunk_a)

empty-replica : (k : Bytes) → length (bytes_or_empty (view memory empty k).replica) < 2 ^ 32
unfolding view bytes_or_empty
empty-replica k = omega arith

no_copy : length (bytes_or_empty (view memory empty (block_key uuid_a chunk_a)).replica) < 2 ^ 32
unfolding view bytes_or_empty
no_copy = omega arith

-- The copy is taken: by the step that the specification makes for it.
copy_taken :
    (n : Node memory) × (o : Outcome) × (start_read_header memory empty copy_a.0 copy_a.1
      ≡ some (n, o))
copy_taken =
    let (m, body) = replication-IsMessage salt_a uuid_a 7 4 6 3 IsRequest-a chunk_a chunk_fits in
    let ((n, o), e) = start_read_header_safe memory empty copy_a.0 copy_a.1 m.valid (record {
      body_size = omega (arith, ap length body);
      in_range = omega (arith, m.valid.position_fits, m.size_sent);
      content_size = empty-small (as_string copy_a.0);
      replica_size = empty-replica (as_string copy_a.0);
      read_inside =
          λ q. let impossible : some Packet.replication ≡ some Packet.get = sym m.kind ∙ q in cc;
    }) in
    (n, o, e)

copy_gets_no_data_example :
    get_or (bytes_or_empty (view memory copy_taken.0 (block_key uuid_a chunk_a)).replica) 2 0
    ≡ get_or (bytes_or_empty (view memory empty (block_key uuid_a chunk_a)).replica) 2 0
copy_gets_no_data_example =
    copy_gets_no_data salt_a uuid_a 7 4 6 3 IsRequest-a memory empty copy_taken.0 chunk_a
      copy_taken.1 2 chunk_fits no_copy copy_taken.2
