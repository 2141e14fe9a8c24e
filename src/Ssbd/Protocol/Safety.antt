-- ===== src/Ssbd/Protocol/Safety.antt =====
-- When no message runs outside a buffer, and what a message cannot touch.
use slsfs.Ssbd.Protocol.{run, Message, track}
use slsfs.Ssbd.Protocol.Pending.{opened-some}
use slsfs.Ssbd.Key.Distinct.{IsKey}
use slsfs.Ssbd.Protocol.Track.{run-track, AllHeaders, start_read_header-view, step_lift}
use slsfs.Ssbd.Key.{as_string}
use slsfs.Ssbd.Node.View.{view}
use slsfs.Ssbd.Protocol.Commit.{bytes-opened}
use slsfs.Ssbd.Log.View.{Bytes-discrete, is_pending}
use slsfs.Ssbd.Kv.{Db, bytes_or_empty}
use slsfs.Ssbd.Block.Content.{read_block_lem, overwrite_safe}
use slsfs.Bytes.{Bytes}
use slsfs.Prelude.{
  ◌≢◌, if_neg, All, List, ◌∙◌, ◌∷◌, [], arith, ◌^◌, ◌<◌, ◌+◌, subst, ◌≤◌, length, Bool-cases, ◌≡◌,
  Option, refl, inr, inl, true, none, some,
}
use slsfs.Ssbd.Spec.{
  stage, step, prepare, prepare_quick, read, replicate_to, opened, BlockState, prepare_opened,
}
use slsfs.Ssbd.Packet
use slsfs.Ssbd.Packet.{IsHeader, msg_of, Header, Msg, code, Packet}
use slsfs.Ssbd.Node.{start_read_header, Node, respond, Outcome}

-- A message whose ranges lie inside the block.
pub record InBounds (h : Header) (body : Bytes) (b : BlockState) : Type 0 where
  pub body_size : length body ≤ h.datasize
  pub in_range : h.position + h.datasize < 2 ^ 32
  pub content_size : length (bytes_or_empty b.content) < 2 ^ 32
  pub replica_size : length (bytes_or_empty b.replica) < 2 ^ 32
  pub read_inside : msg_of h.type ≡ some Packet.get → h.position ≤ length (bytes_or_empty b.content)

abbrev Defined : Option (BlockState × Outcome) → Type 0
Defined s = (r : BlockState × Outcome) × (s ≡ some r)

stage-Defined :
    (h : Header) (body : Bytes) (b : BlockState)
    → InBounds h body b
    → Defined (stage h body (opened b))
unfolding stage
stage-Defined h body b i =
    let (block, e) =
      overwrite_safe (bytes_or_empty b.content) h.position h.datasize body i.body_size i.in_range
        i.content_size in
    rw (bytes-opened b) (rw e (_, refl))

read-Defined :
    (h : Header) (body : Bytes) (b : BlockState)
    → InBounds h body b
    → msg_of h.type ≡ some Packet.get
    → Defined (read h b)
unfolding read bytes_or_empty
read-Defined h body b i e = by_content b.content refl
  where
    by_content : (c : Option Bytes) → b.content ≡ c → Defined (read h b)
    by_content none q = rw (q, read) (_, refl)
    by_content (some block) q =
        let inside : h.position ≤ length block =
          subst (λ c. h.position ≤ length (bytes_or_empty c)) q (i.read_inside e) in
        let size : length block < 2 ^ 32 =
          subst (λ c. length (bytes_or_empty c) < 2 ^ 32) q i.content_size in
        let (buf, r, size_r, bytes) =
          read_block_lem block h.position h.datasize inside (omega arith) in
        rw (q, read) (rw r (_, refl))

step-Defined :
    (h : Header) (body : Bytes) (b : BlockState) → InBounds h body b → Defined (step h body b)
unfolding step prepare prepare_opened prepare_quick replicate_to
step-Defined h body b i = by_type (msg_of h.type) refl
  where
    by_type : (t : Option Msg) → msg_of h.type ≡ t → Defined (step h body b)
    by_type none e = rw (e, step) (_, refl)
    by_type (some Packet.two_pc_prepare) e =
        rw (e, step)
          (elim (Bool-cases (is_pending (opened b).log)) [
            | inl on ↦ rw (on, prepare_opened) (_, refl)
            | inr off ↦ rw (off, prepare_opened) (stage-Defined h body b i)
          ])
    by_type (some Packet.two_pc_prepare_quick) e = rw (e, step) (stage-Defined h body b i)
    by_type (some Packet.replication) e =
        let (block, q) =
          overwrite_safe (bytes_or_empty b.replica) h.position h.datasize body i.body_size
            i.in_range i.replica_size in
        rw (e, step) (rw q (_, refl))
    by_type (some Packet.get) e = rw (e, step) (read-Defined h body b i e)
    by_type (some other) e = rw (e, step) (_, refl)

step-busy :
    (h : Header) (body : Bytes) (b : BlockState) (c : Bytes)
    → msg_of h.type ≡ some Packet.two_pc_prepare
    → b.content ≡ some c
    → is_pending b.log ≡ true
    → step h body b ≡ some (b, respond h (code Packet.two_pc_prepare_abort) [])
unfolding step prepare prepare_opened
step-busy h body b c t e busy =
    rw (t, step) (rw (opened-some b c e) (rw (busy, prepare_opened) refl))

track-elsewhere :
    (ms : List Message) (b : BlockState) (j : Bytes)
    → All (λ m. as_string m.0 ≢ j) ms
    → track j b ms ≡ b
unfolding track
track-elsewhere [] b j other = refl
track-elsewhere ((h, body) ∷ ms) b j other =
    rw (if_neg _ other.0, track) (track-elsewhere ms b j other.1)

module _ (d : Db) where
  -- A message with a valid header, whose body is no longer than announced, whose range does not
  -- wrap, and which reads from inside the block, runs outside no buffer: the server takes it.
  pub start_read_header_safe :
      (n : Node d) (h : Header) (body : Bytes)
      → IsHeader h
      → InBounds h body (view d n (as_string h))
      → (r : Node d × Outcome) × (start_read_header d n h body ≡ some r)
  start_read_header_safe n h body v i =
      let key = as_string h in
      let b = view d n key in
      let ((b', o), e) = step-Defined h body b i in
      let (n', e', same) = step_lift d n h body b' o v e in ((n', o), e')

  -- A prepare that finds its existing block pending is answered with an abort, and no block
  -- changes.
  pub busy_block_aborts :
      (n : Node d) (h : Header) (body c : Bytes)
      → IsHeader h
      → msg_of h.type ≡ some Packet.two_pc_prepare
      → (view d n (as_string h)).content ≡ some c
      → is_pending (view d n (as_string h)).log ≡ true
      → (n' : Node d) × (start_read_header d n h body
          ≡ some (n', respond h (code Packet.two_pc_prepare_abort) []))
        × ((j : Bytes) → IsKey j → view d n' j ≡ view d n j)
  busy_block_aborts n h body c v t e busy =
      let key = as_string h in
      let b = view d n key in
      let o = respond h (code Packet.two_pc_prepare_abort) [] in
      let (n', e', same) = step_lift d n h body b o v (step-busy h body b c t e busy) in
      (
        n',
        e',
        λ j hj. elim (Bytes-discrete key j) [
          | yes q ↦ subst (λ j. view d n' j ≡ view d n j) q same
          | no q ↦
              start_read_header-view d n n' h body j o v hj e' ∙ if_neg (Bytes-discrete key j) q _ _
        ],
      )

  -- A block that none of the messages names is unchanged after they are taken.
  pub other_blocks_untouched :
      (n n' : Node d) (ms : List Message) (os : List Outcome) (j : Bytes)
      → AllHeaders ms
      → IsKey j
      → All (λ m. as_string m.0 ≢ j) ms
      → run d n ms ≡ some (n', os)
      → view d n' j ≡ view d n j
  other_blocks_untouched n n' ms os j v hj other e =
      run-track d ms n n' os j v hj e ∙ track-elsewhere ms (view d n j) j other
