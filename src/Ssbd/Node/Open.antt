-- ===== src/Ssbd/Node/Open.antt =====
-- What the handlers write, seen at a block: the pending slot, and a block that a prepare creates.
use slsfs.Prelude.{
  sym, ◌∙◌, ◌^◌, ap, Option-cases, arith, ◌<◌, ◌≡◌, refl, inr, inl, none, some, [], ℕ,
}
use slsfs.Bytes.{Bytes}
use slsfs.Ssbd.Kv.{Db, bytes_or_empty}
use slsfs.Ssbd.Key.Distinct.{IsKey}
use slsfs.Ssbd.Log.{
  get_committed_version, put_committed_version, put_pending_prepare, have_pending_log,
}
use slsfs.Ssbd.Log.View.{at, at-at, at-eq, at-id}
use slsfs.Ssbd.Log.Ops.{
  log_view-put_pending, log_view-put_committed, log_view-get_committed, log_view-have_pending,
}
use slsfs.Ssbd.Node.{Node, open_block}
use slsfs.Ssbd.Spec.{BlockState, opened, created}
use slsfs.Ssbd.Node.View.{view, view-put_content, view-log}

opened-some : (b : BlockState) (old : Bytes) → b.content ≡ some old → opened b ≡ b
unfolding opened
opened-some b old e = ground arith

opened-none : (b : BlockState) → b.content ≡ none → opened b ≡ created b
unfolding opened
opened-none b e = ground arith

module _ (d : Db) where
  open d use {find, put, find-put_self, find-put_ne}

  pub view-put_pending :
      (n : Node d) (k j value : Bytes) (v : ℕ)
      → IsKey k
      → IsKey j
      → v < 2 ^ 32
      → view d (record n { log = put_pending_prepare d n.log k value v }) j
        ≡ at k
            (λ b. record b { log = record (b.log) { pending = v; data_text = value } })
            j
            (view d n j)
  view-put_pending n k j value v hk hj h =
      view-log d n (put_pending_prepare d n.log k value v) k j
        (λ w. record w { pending = v; data_text = value })
        (log_view-put_pending d n.log k j value v hk hj h)

  pub view-get_committed :
      (n : Node d) (k j : Bytes)
      → IsKey k
      → IsKey j
      → view d (record n { log = (get_committed_version d n.log k).1 }) j ≡ view d n j
  unfolding view
  view-get_committed n k j hk hj = rw (log_view-get_committed d n.log k j hk hj)

  pub view-have_pending :
      (n : Node d) (k j : Bytes)
      → IsKey k
      → IsKey j
      → view d (record n { log = (have_pending_log d n.log k).1 }) j ≡ view d n j
  unfolding view
  view-have_pending n k j hk hj = rw (log_view-have_pending d n.log k j hk hj)

  pub view-content : (n : Node d) (k : Bytes) → (view d n k).content ≡ find n.db k
  unfolding view
  view-content n k = refl

  open_block-none :
      (n : Node d) (k : Bytes)
      → find n.db k ≡ none
      → open_block d n k ≡ record n {
        db = put n.db k [];
        log = put_pending_prepare d (put_committed_version d n.log k 0) k [] 0;
      }
  unfolding open_block
  open_block-none n k e = rw (e, open_block)

  open_block-some : (n : Node d) (k old : Bytes) → find n.db k ≡ some old → open_block d n k ≡ n
  unfolding open_block
  open_block-some n k old e = rw (e, open_block)

  -- The three writes that create a block, in one.
  view-created :
      (n : Node d) (k j : Bytes)
      → IsKey k
      → IsKey j
      → view d
          (record n {
            db = put n.db k [];
            log = put_pending_prepare d (put_committed_version d n.log k 0) k [] 0;
          })
          j
        ≡ at k created j (view d n j)
  unfolding created
  view-created n k j hk hj =
      let n1 : Node d = record n { log = put_committed_version d n.log k 0 } in
      let n2 : Node d = record n1 { log = put_pending_prepare d n1.log k [] 0 } in
      view-put_content d n2 k j [] hk hj
      ∙ ap (at k (λ b. record b { content = some [] }) j) (
          view-put_pending n1 k j [] 0 hk hj (omega arith)
          ∙ ap (at k (λ b. record b { log = record (b.log) { pending = 0; data_text = [] } }) j) (
              view-log d n n1.log k j (λ w. record w { committed = 0 })
                (log_view-put_committed d n.log k j 0 hk hj (omega arith))))
      ∙ ap (at k (λ b. record b { content = some [] }) j) (
          at-at k j (λ b. record b { log = record (b.log) { pending = 0; data_text = [] } })
            (λ b. record b { log = record (b.log) { committed = 0 } }) (view d n j))
      ∙ at-at k j (λ b. record b { content = some [] })
          (λ b. record b { log = record { committed = 0; pending = 0; data_text = [] } })
          (view d n j)

  pub view-open_block :
      (n : Node d) (k j : Bytes)
      → IsKey k
      → IsKey j
      → view d (open_block d n k) j ≡ at k opened j (view d n j)
  view-open_block n k j hk hj = elim (Option-cases (find n.db k)) [
    | inl e ↦ rw (open_block-none n k e) (
        view-created n k j hk hj
        ∙ at-eq k j created opened (view d n j)
            λ q. sym (opened-none (view d n j) (view-content n j ∙ ap (find n.db) (sym q) ∙ e)))
    | inr (old, e) ↦ rw (open_block-some n k old e) (
        sym (at-id k j (view d n j))
        ∙ at-eq k j (λ b. b) opened (view d n j)
            λ q. sym (opened-some (view d n j) old (view-content n j ∙ ap (find n.db) (sym q) ∙ e)))
  ]

  pub view_found :
      (n : Node d) (k old : Bytes)
      → find n.db k ≡ some old
      → bytes_or_empty (view d n k).content ≡ old
  unfolding bytes_or_empty view
  view_found n k old e = ap bytes_or_empty e

  -- After it the block is there.
  pub content-open_block :
      (n : Node d) (k : Bytes) → (old : Bytes) × (find (open_block d n k).db k ≡ some old)
  content-open_block n k = elim (Option-cases (find n.db k)) [
    | inl e ↦ ([], rw (open_block-none n k e, find-put_self n.db k []))
    | inr (old, e) ↦ (old, rw (open_block-some n k old e) e)
  ]
