-- ===== src/Ssbd/Node/Refine.antt =====
-- Each message changes the block that it names as the specification says, and no other block.
use slsfs.Prelude.{
  ap₂, if_pos, Bool-cases, sym, ◌∙◌, Option-cases, ap, ◌≡◌, Option, refl, inr, inl, none, some, [],
}
use slsfs.Bytes.{Bytes}
use slsfs.Ssbd.Packet.{Header, IsHeader, code}
use slsfs.Ssbd.Kv.{Db}
use slsfs.Ssbd.Key.{as_string}
use slsfs.Ssbd.Key.Distinct.{IsKey, as_string-IsKey}
use slsfs.Ssbd.Block.{overwrite}
use slsfs.Ssbd.Log.{get_committed_version, put_pending_prepare, have_pending_log}
use slsfs.Ssbd.Log.View.{at, at-at, at-const, at-id, Bytes-discrete, is_pending}
use slsfs.Ssbd.Log.Ops.{have_pending-fst}
use slsfs.Ssbd.Node.{two_pc_prepare_agree, two_pc_prepare_abort, Node, Outcome, respond, open_block}
use slsfs.Ssbd.Node
use slsfs.Ssbd.Spec
use slsfs.Ssbd.Spec.{BlockState, opened, prepare_opened}
use slsfs.Ssbd.Node.Open.{
  view-put_pending, view-get_committed, view-have_pending, view-open_block, content-open_block,
  view_found,
}
use slsfs.Ssbd.Node.View.{view}

-- A result with the server's state seen at block `j`.
abbrev pub seen : (d : Db) → Bytes → Option (Node d × Outcome) → Option (BlockState × Outcome)
seen d j none = none
seen d j (some (n, out)) = some (view d n j, out)

-- A result about block `k`, put in the place of block `j`'s state `w` where that is the same block.
abbrev pub placed :
    Bytes → Bytes → BlockState → Option (BlockState × Outcome) → Option (BlockState × Outcome)
placed k j w none = none
placed k j w (some (b, out)) = some (at k (λ _. b) j w, out)

placed-at :
    (k j : Bytes) (f : BlockState → BlockState) (w : BlockState) (s : Option (BlockState × Outcome))
    → placed k j (at k f j w) s ≡ placed k j w s
placed-at k j f w none = refl
placed-at k j f w (some (b, out)) = ap (λ x. some (x, out)) (at-at k j (λ _. b) f w)

module _ (d : Db) where
  open d use {find, put, find-put_self}

  view-staged :
      (n : Node d) (h : Header) (block j : Bytes)
      → IsHeader h
      → IsKey j
      → let key = as_string h in
        view d
          (record n {
            log = (get_committed_version d (put_pending_prepare d n.log key block h.version) key).1;
          })
          j
        ≡ at key
            (λ _. record (view d n key) {
              log = record ((view d n key).log) { pending = h.version; data_text = block };
            })
            j
            (view d n j)
  view-staged n h block j v hj =
      let key = as_string h in
      let hk = as_string-IsKey h v in
      view-get_committed d (record n { log = put_pending_prepare d n.log key block h.version }) key
        j hk hj
      ∙ view-put_pending d n key j block h.version hk hj v.version_fits
      ∙ at-const key j
          (λ b. record b { log = record (b.log) { pending = h.version; data_text = block } })
          (view d n)

  stage_refines :
      (n : Node d) (h : Header) (body old j : Bytes)
      → IsHeader h
      → IsKey j
      → find n.db (as_string h) ≡ some old
      → seen d j (Node.stage d n h body old)
        ≡ placed (as_string h) j (view d n j) (Spec.stage h body (view d n (as_string h)))
  unfolding Node.stage Spec.stage
  stage_refines n h body old j v hj e =
      let found = view_found d n (as_string h) old e in
      elim (Option-cases (overwrite old h.position h.datasize body)) [
        | inl fault ↦ rw found (rw fault)
        | inr (block, fits) ↦ rw found (
            rw fits (
              ap (λ x. some (x, respond h (code two_pc_prepare_agree) []))
                (view-staged n h block j v hj)))
      ]

  busy-is_pending :
      (n : Node d) (k : Bytes)
      → IsKey k
      → (have_pending_log d n.log k).0 ≡ is_pending (view d n k).log
  unfolding view
  busy-is_pending n k hk = have_pending-fst d n.log k hk

  stage_or_abort_refines :
      (n : Node d) (h : Header) (body old j : Bytes)
      → IsHeader h
      → IsKey j
      → find n.db (as_string h) ≡ some old
      → seen d j (Node.stage_or_abort d n h body old)
        ≡ placed (as_string h) j (view d n j) (prepare_opened h body (view d n (as_string h)))
  unfolding prepare_opened Node.stage_or_abort
  stage_or_abort_refines n h body old j v hj e =
      let key = as_string h in
      let hk = as_string-IsKey h v in
      let n' : Node d = record n { log = (have_pending_log d n.log key).1 } in
      let same = view-have_pending d n key j hk hj in
      let busy : (have_pending_log d n.log key).0 ≡ is_pending (view d n key).log =
        busy-is_pending n key hk in
      elim (Bool-cases (is_pending (view d n key).log)) [
        | inl on ↦
            rw (busy, on)
              (ap (λ x. some (x, respond h (code two_pc_prepare_abort) []))
                (view-get_committed d n' key j hk hj
                  ∙ same
                  ∙ sym (at-id key j (view d n j))
                  ∙ at-const key j (λ b. b) (view d n)))
        | inr off ↦
            rw (busy, off)
              (stage_refines n' h body old j v hj e
                ∙ ap₂ (λ w b. placed key j w (Spec.stage h body b)) same
                    (view-have_pending d n key key hk hk))
      ]

  -- A block that exists is not opened again.
  view-opened :
      (n : Node d) (k : Bytes) → IsKey k → view d (open_block d n k) k ≡ opened (view d n k)
  view-opened n k hk = view-open_block d n k k hk hk ∙ if_pos (Bytes-discrete k k) refl _ _

  pub prepare_refines :
      (n : Node d) (h : Header) (body j : Bytes)
      → IsHeader h
      → IsKey j
      → seen d j (Node.start_two_pc_prepare d n h body)
        ≡ placed (as_string h) j (view d n j) (Spec.prepare h body (view d n (as_string h)))
  unfolding Node.start_two_pc_prepare Spec.prepare
  prepare_refines n h body j v hj =
      let key = as_string h in
      let hk = as_string-IsKey h v in
      let n' = open_block d n key in
      let (old, e) = content-open_block d n key in
      rw (e, Node.start_two_pc_prepare)
        (stage_or_abort_refines n' h body old j v hj e
          ∙ ap₂ (placed key j) (view-open_block d n key j hk hj)
              (ap (prepare_opened h body) (view-opened n key hk))
          ∙ placed-at key j opened (view d n j) (Spec.prepare h body (view d n key)))

  pub prepare_quick_refines :
      (n : Node d) (h : Header) (body j : Bytes)
      → IsHeader h
      → IsKey j
      → seen d j (Node.start_two_pc_prepare_quick d n h body)
        ≡ placed (as_string h) j (view d n j) (Spec.prepare_quick h body (view d n (as_string h)))
  unfolding Node.start_two_pc_prepare_quick Spec.prepare_quick
  prepare_quick_refines n h body j v hj =
      let key = as_string h in
      let hk = as_string-IsKey h v in
      let n' = open_block d n key in
      let (old, e) = content-open_block d n key in
      rw (e, Node.start_two_pc_prepare_quick)
        (stage_refines n' h body old j v hj e
          ∙ ap₂ (λ w b. placed key j w (Spec.stage h body b)) (view-open_block d n key j hk hj)
              (view-opened n key hk)
          ∙ placed-at key j opened (view d n j) (Spec.stage h body (opened (view d n key))))
