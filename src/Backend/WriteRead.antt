-- ===== src/Backend/WriteRead.antt =====
-- A whole write of a file and a whole read of it, against the block server that holds its blocks.
use slsfs.Backend.Split.Blocks.{split-Ascending}
use slsfs.Ssbd.Block.{read_block}
use slsfs.Ssbd.Block.Content.{read_block-written, written}
use slsfs.Ssbd.Protocol.Commit.{step-get, step-prepare, step-commit, staged}
use slsfs.Backend.Phase.{phase, Takes}
use slsfs.Ssbd.Node.View.{view}
use slsfs.Ssbd.Protocol.{run, Message}
use slsfs.Ssbd.Packet.RoundTrip.{msg_of-code}
use slsfs.Backend.Requests.Wire.{
  split-ChunkFits, length-chunk_data, prepare-IsMessage, read-IsMessage, commit-IsMessage,
  block_key, ChunkFits, IsRequest,
}
use slsfs.Backend.Split.Tiles.{gather-split, gather}
use slsfs.Backend.Coordinator.Count.{unanimous}
use slsfs.Bytes.{Bytes}
use slsfs.Backend.Coordinator.{agrees}
use slsfs.Ssbd.Log.View.{is_pending}
use slsfs.Ssbd.Kv.{bytes_or_empty, Db}
use slsfs.Backend.Requests.{
  read_messages, read_request, commit_request, commit_messages, prepare_messages, prepare_request,
  sent_message, reply_data, collect, reply_type,
}
use slsfs.Backend.Split.{split, chunk_data, Chunk}
use slsfs.Prelude.{
  arith, Bool-cases, ◌∙◌, ap₂, sym, ◌++◌, ◌^◌, ◌<◌, ap, ◌⊎◌, length, map, ◌≡◌, All, List, Bool,
  if◌then◌else◌, refl, inr, inl, false, true, some, ◌∷◌, [], ℕ,
}
use slsfs.Ssbd.Packet
use slsfs.Ssbd.Packet.{msg_of, Msg, Header, Packet, code}
use slsfs.Ssbd.Spec.{BlockState, step, commit, opened}
use slsfs.Ssbd.Node.{Node, Outcome, respond}

-- A block that takes the write: nothing is pending, or the backend does not ask, and the block is
-- smaller than 4 GiB.
pub record Writable (quick : Bool) (b : BlockState) : Type 0 where
  pub free : (is_pending (opened b).log ≡ false) ⊎ (quick ≡ true)
  pub old_size : length (bytes_or_empty b.content) < 2 ^ 32

All-zip :
    {P Q R : Chunk → Type 0}
    → ((c : Chunk) → P c → Q c → R c)
    → (cs : List Chunk) → All P cs
    → All Q cs
    → All R cs
All-zip f [] p q = tt
All-zip f (c ∷ cs) p q = (f c p.0 q.0, All-zip f cs p.1 q.1)

agreed_outcomes :
    (h : Chunk → Header) (cs : List Chunk)
    → unanimous (map reply_type (map (λ c. respond (h c) (code Packet.two_pc_prepare_agree) []) cs))
      ≡ true
unfolding reply_type respond agrees
agreed_outcomes h [] = refl
agreed_outcomes h (c ∷ cs) = rw (msg_of-code Packet.two_pc_prepare_agree) (agreed_outcomes h cs)

collected :
    (h : Chunk → Header) (xs : Bytes) (cs : List Chunk)
    → collect (map (λ c. respond (h c) (code Packet.ack) (chunk_data xs c)) cs) ≡ gather xs cs
unfolding collect reply_data respond gather
collected h xs [] = refl
collected h xs (c ∷ cs) = ap (λ r. chunk_data xs c ++ r) (collected h xs cs)

module _ (d : Db) (salt : Msg → Chunk → Bytes) (is_checked : Chunk → Bool) (uuid : Bytes)
    (version bs pos : ℕ) (xs : Bytes) (r : IsRequest salt uuid version bs pos (length xs)) where
  prepare_of : Chunk → Message
  prepare_of c = sent_message (prepare_request salt is_checked uuid version xs c)

  prepare-Takes :
      (n : Node d) (c : Chunk)
      → ChunkFits (length xs) c
      → Writable (is_checked c) (view d n (block_key uuid c))
      → Takes d uuid prepare_of
          (λ c. staged (prepare_of c).0 (chunk_data xs c) (view d n (block_key uuid c)))
          (λ c. respond (prepare_of c).0 (code Packet.two_pc_prepare_agree) [])
          n
          c
  unfolding prepare_of
  prepare-Takes n c f w =
      let b = view d n (block_key uuid c) in
      let (m, body) =
        prepare-IsMessage salt uuid version bs pos (length xs) r is_checked xs c refl f in
      let size = length-chunk_data salt uuid version bs pos (length xs) r xs c refl f in
      let kind : (msg_of (prepare_of c).0.type ≡ some Packet.two_pc_prepare)
            × (is_pending (opened b).log ≡ false)
          ⊎ (msg_of (prepare_of c).0.type ≡ some Packet.two_pc_prepare_quick) =
        elim (Bool-cases (is_checked c)) [
          | inl on ↦ inr (
              m.kind
              ∙ ap (λ q. some (if q then Packet.two_pc_prepare_quick else Packet.two_pc_prepare))
                  on)
          | inr off ↦ inl (
            m.kind
                ∙ ap (λ q. some (if q then Packet.two_pc_prepare_quick else Packet.two_pc_prepare))
                    off,
            free (is_pending (opened b).log) (is_checked c) off w.free,
          )
        ] in
      record {
        valid = m.valid;
        blockid_fits = f.blockid_fits;
        key = m.key;
        taken =
            ap (λ x. step (prepare_of c).0 x b) body
            ∙ step-prepare (prepare_of c).0 (chunk_data xs c) b kind (size ∙ sym m.size_sent)
                (omega (arith, m.at_offset, m.size_sent, f.inside_block)) w.old_size;
      }
    where
      free : (p quick : Bool) → quick ≡ false → (p ≡ false) ⊎ (quick ≡ true) → p ≡ false
      free p quick off (inl e) = e
      free p quick off (inr on) = let impossible : false ≡ true = sym off ∙ on in cc

  commit_of : Chunk → Message
  commit_of c = sent_message (commit_request salt true uuid version c)

  commit-Takes :
      (n : Node d) (c : Chunk) (g : Chunk → BlockState)
      → ChunkFits (length xs) c
      → view d n (block_key uuid c) ≡ g c
      → Takes d uuid commit_of
          (λ c. commit (g c))
          (λ c. respond (commit_of c).0 (code Packet.two_pc_commit_ack) [])
          n
          c
  unfolding commit_of
  commit-Takes n c g f v =
      let (m, body) = commit-IsMessage salt uuid version bs pos (length xs) r true c f in
      record {
        valid = m.valid;
        blockid_fits = f.blockid_fits;
        key = m.key;
        taken = ap₂ (step (commit_of c).0) body v ∙ step-commit (commit_of c).0 [] (g c) m.kind;
      }

  read_of : Chunk → Message
  read_of c = sent_message (read_request salt uuid c)

  read-Takes :
      (n : Node d) (c : Chunk) (g : Chunk → BlockState) (old : Bytes)
      → ChunkFits (length xs) c
      → view d n (block_key uuid c) ≡ commit (g c)
      → (g c).log.data_text ≡ written old c.offset (chunk_data xs c)
      → length old < 2 ^ 32
      → Takes d uuid read_of
          (λ c. commit (g c))
          (λ c. respond (read_of c).0 (code Packet.ack) (chunk_data xs c))
          n
          c
  unfolding read_of
  read-Takes n c g old f v w small =
      let (m, body) = read-IsMessage salt uuid version bs pos (length xs) r c f in
      let size = length-chunk_data salt uuid version bs pos (length xs) r xs c refl f in
      let readback : read_block (g c).log.data_text (read_of c).0.position (read_of c).0.datasize
          ≡ some (chunk_data xs c) =
        rw w (
          ap₂ (read_block (written old c.offset (chunk_data xs c))) m.at_offset
            (m.size_sent ∙ sym size))
        ∙ read_block-written old c.offset (chunk_data xs c) (omega (arith, size, f.inside_block))
            small in
      record {
        valid = m.valid;
        blockid_fits = f.blockid_fits;
        key = m.key;
        taken =
            ap₂ (step (read_of c).0) body v
            ∙ step-get (read_of c).0 (chunk_data xs c) (g c) m.kind readback;
      }

  -- For a well-formed request whose blocks are all writable, the block server takes every prepare,
  -- commit and read message that the backend sends for it, every prepare is agreed to, and what the
  -- reads collect is the data that was written.
  pub write_then_read :
      (n : Node d)
      → All (λ c. Writable (is_checked c) (view d n (block_key uuid c))) (split bs pos (length xs))
      → let cs = split bs pos (length xs) in
        (n1 : Node d) × (os1 : List Outcome) × (n2 : Node d) × (os2 : List Outcome) × (n3 : Node d)
        × (os3 : List Outcome) × (run d n (prepare_messages salt is_checked uuid version xs cs)
            ≡ some (n1, os1))
        × (unanimous (map reply_type os1) ≡ true)
        × (run d n1 (commit_messages salt true uuid version cs) ≡ some (n2, os2))
        × (run d n2 (read_messages salt uuid cs) ≡ some (n3, os3))
        × (collect os3 ≡ xs)
  unfolding prepare_messages commit_messages read_messages prepare_of commit_of read_of staged
  write_then_read n w =
      let cs = split bs pos (length xs) in
      let up = split-Ascending bs pos (length xs) r.blocks r.in_range in
      let fits = split-ChunkFits salt uuid version bs pos (length xs) r in
      let old : Chunk → BlockState = λ c. view d n (block_key uuid c) in
      let g : Chunk → BlockState = λ c. staged (prepare_of c).0 (chunk_data xs c) (old c) in
      let (n1, e1, v1, rest1) =
        phase d uuid prepare_of g
          (λ c. respond (prepare_of c).0 (code Packet.two_pc_prepare_agree) []) n cs up
          (All-zip (prepare-Takes n) cs fits w) in
      let (n2, e2, v2, rest2) =
        phase d uuid commit_of (λ c. commit (g c))
          (λ c. respond (commit_of c).0 (code Packet.two_pc_commit_ack) []) n1 cs up
          (All-zip (λ c f v. commit-Takes n1 c g f v) cs fits v1) in
      let at_offset : (c : Chunk)
          → ChunkFits (length xs) c
          → (g c).log.data_text
            ≡ written (bytes_or_empty (old c).content) c.offset (chunk_data xs c) =
        λ c f.
          ap (λ p. written (bytes_or_empty (old c).content) p (chunk_data xs c))
            (prepare-IsMessage salt uuid version bs pos (length xs) r is_checked xs c refl
              f).0.at_offset in
      let (n3, e3, v3, rest3) =
        phase d uuid read_of (λ c. commit (g c))
          (λ c. respond (read_of c).0 (code Packet.ack) (chunk_data xs c)) n2 cs up
          (All-zip
            (λ c f q. read-Takes n2 c g (bytes_or_empty (old c).content) f q.0 (at_offset c f) q.1)
            cs fits
            (All-zip
              {R = λ c.
                (view d n2 (block_key uuid c) ≡ commit (g c))
                × (length (bytes_or_empty (old c).content) < 2 ^ 32)}
              (λ c v q. (v, q.old_size)) cs v2 w)) in
      (
        n1,
        _,
        n2,
        _,
        n3,
        _,
        e1,
        agreed_outcomes (λ c. (prepare_of c).0) cs,
        e2,
        e3,
        collected (λ c. (read_of c).0) xs cs ∙ gather-split xs bs pos r.blocks r.in_range,
      )
