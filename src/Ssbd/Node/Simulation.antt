-- ===== src/Ssbd/Node/Simulation.antt =====
-- The other messages, and the dispatch: a block server is a simulation of its blocks.
use slsfs.Prelude.{
  ◌>>=◌, ◌^◌, ◌<◌, Option, ◌∙◌, ap, sym, Option-cases, arith, ◌≡◌, refl, inr, inl, false, none,
  some, [],
}
use slsfs.Bytes.{Bytes}
use slsfs.Ssbd.Packet.{Header, IsHeader, code, msg_of, Msg}
use slsfs.Ssbd.Packet
use slsfs.Ssbd.Kv.{Db, bytes_or_empty}
use slsfs.Ssbd.Key.{as_string, replica_key}
use slsfs.Ssbd.Key.Distinct.{IsKey, as_string-IsKey}
use slsfs.Ssbd.Block.{overwrite, read_block}
use slsfs.Ssbd.Log.{
  commit_pending_prepare, get_pending_prepare_data, get_pending_prepare_version,
  put_committed_version,
}
use slsfs.Ssbd.Key.{pending_version}
use slsfs.Ssbd.Log.{read_slot}
use slsfs.Ssbd.Log.View.{log_view, version_of-lt, at, at-at, at-const, at-id}
use slsfs.Ssbd.Log.Ops.{log_view-put_committed, log_view-get_pending, pending-fst}
use slsfs.Ssbd.Node.{Node, Outcome, respond}
use slsfs.Ssbd.Node
use slsfs.Ssbd.Spec
use slsfs.Ssbd.Spec.{BlockState}
use slsfs.Ssbd.Node.View.{view, view-put_content, view-put_replica, view-log}
use slsfs.Ssbd.Node.Open.{view-put_pending}
use slsfs.Ssbd.Node.Refine.{seen, placed, prepare_refines, prepare_quick_refines}

module _ (d : Db) where
  open d use {find, put}

  pending-lt : (n : Node d) (k : Bytes) → (get_pending_prepare_version d n.log k).0 < 2 ^ 32
  unfolding log_view
  pending-lt n k =
      omega (arith, pending-fst d n.log k, version_of-lt (read_slot d n.log pending_version k))

  -- The version is read in the log before it is written back as the committed one.
  view-commit :
      (n : Node d) (h : Header) (j : Bytes)
      → IsHeader h
      → IsKey j
      → view d (Node.start_two_pc_commit_execute d n h).0 j
        ≡ at (as_string h) (λ _. Spec.commit (view d n (as_string h))) j (view d n j)
  unfolding Node.start_two_pc_commit_execute commit_pending_prepare Spec.commit
      get_pending_prepare_data view log_view
  view-commit n h j v hj =
      let key = as_string h in
      let hk = as_string-IsKey h v in
      let (p, log1) = get_pending_prepare_version d n.log key in
      let data_text = get_pending_prepare_data d n.log key in
      let n1 : Node d = record n { log = put_committed_version d log1 key p } in
      view-put_content d n1 key j data_text hk hj
      ∙ ap (at key (λ b. record b { content = some data_text }) j) (
          view-log d n n1.log key j (λ w. record w { committed = p })
            (log_view-put_committed d log1 key j p hk hj (pending-lt n key)
              ∙ ap (at key (λ w. record w { committed = p }) j)
                  (log_view-get_pending d n.log key j hk hj)))
      ∙ at-at key j (λ b. record b { content = some data_text })
          (λ b. record b { log = record (b.log) { committed = p } }) (view d n j)
      ∙ at-const key j
          (λ b. record b { content = some data_text; log = record (b.log) { committed = p } })
          (view d n)
      ∙ ap
          (λ p.
            at key
              (λ _. record (view d n key) {
                content = some data_text;
                log = record ((view d n key).log) { committed = p };
              })
              j (view d n j))
          (pending-fst d n.log key)

  view-rollback :
      (n : Node d) (h : Header) (j : Bytes)
      → IsHeader h
      → IsKey j
      → view d (Node.start_two_pc_commit_rollback d n h).0 j
        ≡ at (as_string h) (λ _. Spec.rollback (view d n (as_string h))) j (view d n j)
  unfolding Node.start_two_pc_commit_rollback Spec.rollback
  view-rollback n h j v hj =
      let key = as_string h in
      view-put_pending d n key j [] 0 (as_string-IsKey h v) hj (omega arith)
      ∙ at-const key j (λ b. record b { log = record (b.log) { pending = 0; data_text = [] } })
          (view d n)

  replication_refines :
      (n : Node d) (h : Header) (body j : Bytes)
      → IsHeader h
      → IsKey j
      → seen d j (Node.start_replication d n h body)
        ≡ placed (as_string h) j (view d n j) (Spec.replicate_to h body (view d n (as_string h)))
  unfolding Node.start_replication Spec.replicate_to view
  replication_refines n h body j v hj =
      let key = as_string h in
      let old = bytes_or_empty (find n.db (replica_key key)) in
      elim (Option-cases (overwrite old h.position h.datasize body)) [
        | inl fault ↦ rw fault
        | inr (block, fits) ↦ rw fits (
            ap (λ x. some (x, respond h (code Packet.ack) []))
              (view-put_replica d n key j block (as_string-IsKey h v) hj
                ∙ at-const key j (λ b. record b { replica = some block }) (view d n)))
      ]

  -- A read changes nothing.
  unchanged : (n : Node d) (k j : Bytes) → view d n j ≡ at k (λ _. view d n k) j (view d n j)
  unchanged n k j = sym (at-id k j (view d n j)) ∙ at-const k j (λ b. b) (view d n)

  read_found :
      (n : Node d) (h : Header) (block j : Bytes)
      → seen d j (
          read_block block h.position h.datasize >>= λ buf.
          some (n, respond h (code Packet.ack) buf))
        ≡ placed (as_string h) j (view d n j) (
            read_block block h.position h.datasize >>= λ buf.
            some (view d n (as_string h), respond h (code Packet.ack) buf))
  read_found n h block j = elim (Option-cases (read_block block h.position h.datasize)) [
    | inl fault ↦ rw fault
    | inr (buf, e) ↦
        rw e (ap (λ x. some (x, respond h (code Packet.ack) buf)) (unchanged n (as_string h) j))
  ]

  read_refines :
      (n : Node d) (h : Header) (j : Bytes)
      → seen d j (Node.start_db_read d n h)
        ≡ placed (as_string h) j (view d n j) (Spec.read h (view d n (as_string h)))
  unfolding Node.start_db_read Spec.read view
  read_refines n h j =
      let key = as_string h in
      elim (Option-cases (find n.db key)) [
        | inl missing ↦
            rw (missing, Node.start_db_read, Spec.read)
              (ap (λ x. some (x, respond h (code Packet.err) [])) (unchanged n key j))
        | inr (block, e) ↦ rw (e, Node.start_db_read, Spec.read) (read_found n h block j)
      ]

  -- Every message, with a valid header, acts on the block that the header names as the
  -- specification's step says, gives the outcome that it gives, is undefined where it is, and
  -- leaves every other block as it was.
  pub start_read_header_refines :
      (n : Node d) (h : Header) (body j : Bytes)
      → IsHeader h
      → IsKey j
      → seen d j (Node.start_read_header d n h body)
        ≡ placed (as_string h) j (view d n j) (Spec.step h body (view d n (as_string h)))
  unfolding Node.start_read_header Spec.step Node.start_two_pc_commit_execute respond
      Node.start_two_pc_commit_rollback
  start_read_header_refines n h body j v hj = by_type (msg_of h.type) refl
    where
      refused :
          seen d j (some (n, respond h (code Packet.err) []))
          ≡ placed
              (as_string h)
              j
              (view d n j)
              (some (view d n (as_string h), respond h (code Packet.err) []))
      refused = ap (λ x. some (x, respond h (code Packet.err) [])) (unchanged n (as_string h) j)

      by_type :
          (t : Option Msg)
          → msg_of h.type ≡ t
          → seen d j (Node.start_read_header d n h body)
            ≡ placed (as_string h) j (view d n j) (Spec.step h body (view d n (as_string h)))
      by_type none e =
          rw (e, Node.start_read_header, Spec.step)
            (ap (λ x. some (x, record { reply = none; reads_on = false }))
              (unchanged n (as_string h) j))
      by_type (some Packet.two_pc_prepare) e =
          rw (e, Node.start_read_header, Spec.step) (prepare_refines d n h body j v hj)
      by_type (some Packet.two_pc_prepare_quick) e =
          rw (e, Node.start_read_header, Spec.step) (prepare_quick_refines d n h body j v hj)
      by_type (some Packet.two_pc_commit_execute) e =
          rw (e, Node.start_read_header, Spec.step)
            (ap (λ x. some (x, respond h (code Packet.two_pc_commit_ack) []))
              (view-commit n h j v hj))
      by_type (some Packet.two_pc_commit_rollback) e =
          rw (e, Node.start_read_header, Spec.step)
            (ap (λ x. some (x, respond h (code Packet.two_pc_commit_ack) []))
              (view-rollback n h j v hj))
      by_type (some Packet.replication) e =
          rw (e, Node.start_read_header, Spec.step) (replication_refines n h body j v hj)
      by_type (some Packet.get) e = rw (e, Node.start_read_header, Spec.step) (read_refines n h j)
      by_type (some other) e = rw (e, Node.start_read_header, Spec.step) refused
