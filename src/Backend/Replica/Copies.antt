-- ===== src/Backend/Replica/Copies.antt =====
-- Where a file's blocks and their copies lie, and what a copy is told.
use slsfs.Ssbd.Key.{as_string}
use slsfs.Ssbd.Log.View.{Bytes-discrete}
use slsfs.Ssbd.Protocol.Track.{start_read_header-view}
use slsfs.Ssbd.Protocol.{after}
use slsfs.Ssbd.Key.Distinct.{as_string-IsKey, IsKey}
use slsfs.Ssbd.Block.Content.{overwrite_lem, get_or-written, written}
use native.Mathlib.Nat
use slsfs.Ssbd.Node.View.{view}
use slsfs.Backend.Requests.{create_request, replication_request, sent_message}
use slsfs.Ssbd.Kv.{bytes_or_empty, Db}
use slsfs.Backend.Requests.Wire.{sent-IsMessage, block_key, IsMessage, ChunkFits, IsRequest}
use slsfs.Bytes.{Bytes}
use slsfs.Backend.Split.{Chunk}
use slsfs.Backend.Replica.{backend_list, copy_index, Engine, copies_from, select_replica}
use slsfs.Prelude.{
  ◌∷◌, if_pos, length-append, ◌+◌, >>=-some, ◌∙◌, arith, some_inj, ◌-◌, subst, Bool, ap, get_or,
  ◌≤◌, ◌^◌, All, ltb, length, List, ◌*◌, ◌<◌, ◌≡◌, if◌then◌else◌, refl, suc, zero, false, true,
  none, some, [], ℕ,
}
use slsfs.Ssbd.Packet
use slsfs.Ssbd.Packet.{msg_of, Msg, Header, Packet, code}
use slsfs.Ssbd.Spec.{BlockState, step, replicate_to}
use slsfs.Ssbd.Node.{respond, Node, Outcome, start_read_header}

nothing_skipped : (p : ℕ) → p * (p * 0) ≡ 0
nothing_skipped p = ap (λ x. p * x) (Nat.mul-zero p) ∙ Nat.mul-zero p

-- All first copies of a file go to one block server: its index depends on the file's name alone,
-- since nothing is discarded for copy 0.
pub one_server_for_a_file :
    (e : Engine) (start : ℕ) (uuid : Bytes) (p q : ℕ)
    → select_replica e start uuid p 0 ≡ select_replica e start uuid q 0
unfolding select_replica
one_server_for_a_file e start uuid p q = rw (nothing_skipped p) (rw (nothing_skipped q))

-- The servers that are chosen are in the list: the first copy in its first half, the others in its
-- second half.
pub select_replica-lt :
    (e : Engine) (start : ℕ) (uuid : Bytes) (p ri i : ℕ)
    → 0 < start
    → select_replica e start uuid p ri ≡ some i
    → i < start
unfolding select_replica
select_replica-lt e start uuid p ri i pos h =
    let skip = p * (p * ri) in by_test (ltb skip (2 ^ 31)) h
  where
    by_test :
        (t : Bool)
        → (if t
            then some (e.uniform (start - 1) (e.discard (p * (p * ri)) (e.seed uuid)))
            else none)
          ≡ some i
        → i < start
    by_test true q =
        omega (arith, e.uniform-le (start - 1) (e.discard (p * (p * ri)) (e.seed uuid)), some_inj q)
    by_test false q = cc

copies_from-places :
    (e : Engine) {A : Type 0} (hosts : List A) (uuid : Bytes) (p left ri : ℕ) (is : List ℕ)
    → 0 < length hosts
    → copies_from e (length hosts) uuid p left ri ≡ some is
    → (length is ≡ left) × All (λ i. (length hosts ≤ i) × (i < length (backend_list hosts))) is
unfolding copies_from copy_index backend_list
copies_from-places e hosts uuid p zero ri is pos h =
    subst
      (λ l. (length l ≡ 0) × All (λ i. (length hosts ≤ i) × (i < length (backend_list hosts))) l)
      (some_inj h) (refl, tt)
copies_from-places e hosts uuid p (suc left) ri is pos h =
    let (i, e1, h1) = >>=-some (copy_index e (length hosts) uuid p ri) _ is h in
    let (rest, e2, h2) = >>=-some (copies_from e (length hosts) uuid p left (ri + 1)) _ is h1 in
    let (drawn, e3, h3) = >>=-some (select_replica e (length hosts) uuid p ri) _ i e1 in
    let (size, inside) = copies_from-places e hosts uuid p left (ri + 1) rest pos e2 in
    let below = select_replica-lt e (length hosts) uuid p ri drawn pos e3 in
    subst
      (λ l.
        (length l ≡ suc left) × All (λ i. (length hosts ≤ i) × (i < length (backend_list hosts))) l)
      (some_inj h2)
      (
        omega (arith, size),
        (
          (
            omega (arith, some_inj h3),
            omega (arith, some_inj h3, below, length-append hosts hosts),
          ),
          inside,
        ),
      )

copies_from-some :
    (e : Engine) (start : ℕ) (uuid : Bytes) (p left ri : ℕ)
    → p * (p * (ri + left)) < 2 ^ 31
    → (is : List ℕ) × (copies_from e start uuid p left ri ≡ some is)
unfolding copies_from copy_index select_replica
copies_from-some e start uuid p zero ri small = ([], refl)
copies_from-some e start uuid p (suc left) ri small =
    let next : p * (p * (ri + 1 + left)) < 2 ^ 31 =
      subst (λ n. p * (p * n) < 2 ^ 31) (omega arith) small in
    let (rest, q) = copies_from-some e start uuid p left (ri + 1) next in
    let here : ltb (p * (p * ri)) (2 ^ 31) ≡ true =
      let le : ri ≤ ri + suc left = omega arith in
      let below : p * (p * ri) ≤ p * (p * (ri + suc left)) =
        Nat.mul-le-mul_left p (Nat.mul-le-mul_left p le) in
      ground (arith, below, small) in
    (
      (start + e.uniform (start - 1) (e.discard (p * (p * ri)) (e.seed uuid))) ∷ rest,
      rw here (rw q refl),
    )

-- With a host at least and a block number whose square, times the number that follows the last copy's,
-- stays below 2 ^ 31: as many servers are chosen for the further copies as are asked for, and each
-- index lies in the second half of the list, so that `at` does not throw.
pub copies_from-in_range :
    (e : Engine) {A : Type 0} (hosts : List A) (uuid : Bytes) (p left ri : ℕ)
    → 0 < length hosts
    → p * (p * (ri + left)) < 2 ^ 31
    → (is : List ℕ) × (copies_from e (length hosts) uuid p left ri ≡ some is)
      × (length is ≡ left)
      × All (λ i. (length hosts ≤ i) × (i < length (backend_list hosts))) is
copies_from-in_range e hosts uuid p left ri pos small =
    let (is, q) = copies_from-some e (length hosts) uuid p left ri small in
    let (size, inside) = copies_from-places e hosts uuid p left ri is pos q in (is, q, size, inside)

-- An empty write changes no byte.
empty_write : (old : Bytes) (pos i : ℕ) → get_or (written old pos []) i 0 ≡ get_or old i 0
empty_write old pos i = ground (arith, get_or-written old pos [] i)

step-copy :
    (h : Header) (b : BlockState)
    → msg_of h.type ≡ some Packet.replication
    → h.datasize ≡ 0
    → h.position < 2 ^ 16
    → length (bytes_or_empty b.replica) < 2 ^ 32
    → step h [] b
      ≡ some (
        record b { replica = some (written (bytes_or_empty b.replica) h.position []) },
        respond h (code Packet.ack) [],
      )
unfolding step replicate_to
step-copy h b t zero_size fits small =
    rw (t, step)
      (rw zero_size
        (rw (overwrite_lem (bytes_or_empty b.replica) h.position [] (omega arith) small)))

module _ (salt : Msg → Chunk → Bytes) (uuid : Bytes) (version bs pos size : ℕ)
    (r : IsRequest salt uuid version bs pos size) where
  pub replication-IsMessage :
      (c : Chunk)
      → ChunkFits size c
      → let m = sent_message (replication_request salt uuid version c) in
        IsMessage uuid c Packet.replication 0 m × (m.1 ≡ [])
  unfolding replication_request code create_request
  replication-IsMessage c f =
      sent-IsMessage salt uuid version bs pos size r c Packet.replication version c.size [] refl f
        r.version_fits (omega arith)

  -- A copy keeps every byte that it held: no data of the write reaches it.
  pub copy_gets_no_data :
      (d : Db) (n n' : Node d) (c : Chunk) (o : Outcome) (i : ℕ)
      → ChunkFits size c
      → length (bytes_or_empty (view d n (block_key uuid c)).replica) < 2 ^ 32
      → let m = sent_message (replication_request salt uuid version c) in
        start_read_header d n m.0 m.1 ≡ some (n', o)
        → get_or (bytes_or_empty (view d n' (block_key uuid c)).replica) i 0
          ≡ get_or (bytes_or_empty (view d n (block_key uuid c)).replica) i 0
  unfolding bytes_or_empty
  copy_gets_no_data d n n' c o i f small e =
      let m = sent_message (replication_request salt uuid version c) in
      let key = block_key uuid c in
      let b = view d n key in
      let old = bytes_or_empty b.replica in
      let (msg, body) = replication-IsMessage c f in
      let hk = subst IsKey msg.key (as_string-IsKey m.0 msg.valid) in
      let after_it : view d n' key ≡ after b (step m.0 m.1 b) =
        start_read_header-view d n n' m.0 m.1 key o msg.valid hk e
        ∙ if_pos (Bytes-discrete (as_string m.0) key) msg.key _ _ in
      ap (λ x. get_or (bytes_or_empty x.replica) i 0)
        (after_it
          ∙ ap (λ x. after b (step m.0 x b)) body
          ∙ ap (after b) (step-copy m.0 b msg.kind msg.size_sent msg.valid.position_fits small))
      ∙ empty_write old m.0.position i
