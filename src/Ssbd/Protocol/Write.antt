-- ===== src/Ssbd/Protocol/Write.antt =====
-- A write from its prepare to its commit or rollback, with other clients' messages in between.
use slsfs.Ssbd.Key.Distinct.{as_string-IsKey}
use slsfs.Ssbd.Block.Content.{written}
use slsfs.Ssbd.Node.View.{view}
use slsfs.Ssbd.Protocol.Track.{step_lift, run-track, AllHeaders}
use slsfs.Ssbd.Protocol.Pending.{track-passive, PassiveAt}
use slsfs.Ssbd.Log.View.{Bytes-discrete, is_pending}
use slsfs.Ssbd.Kv.{bytes_or_empty, Db}
use slsfs.Ssbd.Protocol.Commit.{bytes-opened, step-rollback, step-commit, step-prepare, staged}
use slsfs.Bytes.{Bytes}
use slsfs.Ssbd.Protocol.{run, after, Message, as_string, track}
use slsfs.Prelude.{
  arith, ◌≢◌, ◌^◌, ◌<◌, ap, ◌∙◌, ◌+◌, length, ◌⊎◌, ite, ◌++◌, All, if_pos, ◌≡◌, List, refl, false,
  true, none, some, ◌∷◌, [],
}
use slsfs.Ssbd.Spec.{step, commit, rollback, opened, created, BlockState}
use slsfs.Ssbd.Packet
use slsfs.Ssbd.Packet.{IsHeader, msg_of, Header, Msg, code}
use slsfs.Ssbd.Node.{respond, Node, Outcome}

track-append :
    (j : Bytes) (xs ys : List Message) (b : BlockState)
    → track j b (xs ++ ys) ≡ track j (track j b xs) ys
unfolding track
track-append j [] ys b = refl
track-append j ((h, body) ∷ xs) ys b =
    track-append j xs ys (ite (Bytes-discrete (as_string h) j) (after b (step h body b)) b)

track-one :
    (j : Bytes) (h : Header) (body : Bytes) (b b' : BlockState) (o : Outcome)
    → as_string h ≡ j
    → step h body b ≡ some (b', o)
    → track j b ((h, body) ∷ []) ≡ b'
unfolding track
track-one j h body b b' o k e = rw (if_pos _ k, track) (rw e)

-- A prepare that is agreed to, what the others do meanwhile, and the message that settles the write.
abbrev pub transaction : Header → Bytes → List Message → Header → List Message
transaction h body ms c = (h, body) ∷ ms ++ ((c, []) ∷ [])

-- A prepare that the server agrees to, and by which it can tell the write from what is committed. It
-- agrees to the version 0 and to the committed version too; the block does not count as pending then.
pub record Agreed (h : Header) (body : Bytes) (b : BlockState) : Type 0 where
  pub kind :
      (msg_of h.type ≡ some Packet.two_pc_prepare) × (is_pending (opened b).log ≡ false)
      ⊎ (msg_of h.type ≡ some Packet.two_pc_prepare_quick)
  pub body_size : length body ≡ h.datasize
  pub in_range : h.position + h.datasize < 2 ^ 32
  pub old_size : length (bytes_or_empty b.content) < 2 ^ 32
  pub version_used : h.version ≢ 0
  pub version_new : h.version ≢ (opened b).log.committed

pub is_pending-staged :
    (h : Header) (body : Bytes) (b : BlockState)
    → h.version ≢ 0
    → h.version ≢ (opened b).log.committed
    → is_pending (staged h body b).log ≡ true
unfolding staged is_pending
is_pending-staged h body b ne fresh = ground arith

is_pending-rollback : (b : BlockState) → is_pending (rollback b).log ≡ false
unfolding rollback is_pending
is_pending-rollback b = ground arith

pub content-staged :
    (h : Header) (body : Bytes) (b : BlockState)
    → (c : Bytes) × ((staged h body b).content ≡ some c)
unfolding staged opened created
content-staged h body b =
    elim b.content
      as (λ c. (c' : Bytes) × ((staged h body (record b { content = c })).content ≡ some c')) [
        | none ↦ ([], refl)
        | some old ↦ (old, refl)
      ]

track-transaction :
    (h c : Header) (body : Bytes) (ms : List Message) (b : BlockState)
    → Agreed h body b
    → as_string c ≡ as_string h
    → All (PassiveAt (as_string h)) ms
    → (m : BlockState) × (m.content ≡ (staged h body b).content)
      × (m.log ≡ (staged h body b).log)
      × (track (as_string h) b (transaction h body ms c) ≡ track (as_string h) m ((c, []) ∷ []))
track-transaction h c body ms b a k ps =
    let j = as_string h in
    let (old, e) = content-staged h body b in
    let m = track j (staged h body b) ms in
    let (k1, k2) =
      track-passive j ms (staged h body b) old ps e
        (is_pending-staged h body b a.version_used a.version_new) in
    (
      m,
      k1,
      k2,
      track-append j ((h, body) ∷ ms) ((c, []) ∷ []) b
          ∙ ap (λ x. track j x ((c, []) ∷ []))
              (track-append j ((h, body) ∷ []) ms b
                ∙ ap (λ x. track j x ms)
                    (track-one j h body b (staged h body b)
                      (respond h (code Packet.two_pc_prepare_agree) []) refl
                      (step-prepare h body b a.kind a.body_size a.in_range a.old_size))),
    )

module _ (d : Db) where
  -- A prepare that is agreed to and a commit or rollback behind it are taken.
  pub transaction_runs :
      (n : Node d) (h c : Header) (body : Bytes) (b : BlockState) (o : Outcome)
      → IsHeader h
      → IsHeader c
      → Agreed h body (view d n (as_string h))
      → as_string c ≡ as_string h
      → step c [] (staged h body (view d n (as_string h))) ≡ some (b, o)
      → (n' : Node d) × (os : List Outcome) × (run d n (transaction h body [] c) ≡ some (n', os))
  unfolding run
  transaction_runs n h c body b o vh vc a k e =
      let s = view d n (as_string h) in
      let (n1, e1, v1) =
        step_lift d n h body (staged h body s) (respond h (code Packet.two_pc_prepare_agree) []) vh
          (step-prepare h body s a.kind a.body_size a.in_range a.old_size) in
      let (n2, e2, v2) = step_lift d n1 c [] b o vc (ap (step c []) (ap (view d n1) k ∙ v1) ∙ e) in
      (n2, respond h (code Packet.two_pc_prepare_agree) [] ∷ o ∷ [], rw e1 (rw e2))

  -- A write whose version is not 0 and not the block's committed version, whose range and old content
  -- stay below 2 ^ 32 bytes, whose body has the header's size, and whose prepare is agreed to, with a commit after any messages that are
  -- passive at its block: if the server takes them all, the block's content is the old content with the
  -- write laid over it, and the committed version is the write's.
  pub committed_write :
      (n n' : Node d) (h c : Header) (body : Bytes) (ms : List Message) (os : List Outcome)
      → AllHeaders (transaction h body ms c)
      → Agreed h body (view d n (as_string h))
      → as_string c ≡ as_string h
      → msg_of c.type ≡ some Packet.two_pc_commit_execute
      → All (PassiveAt (as_string h)) ms
      → run d n (transaction h body ms c) ≡ some (n', os)
      → ((view d n' (as_string h)).content
          ≡ some (written (bytes_or_empty (view d n (as_string h)).content) h.position body))
        × ((view d n' (as_string h)).log.committed ≡ h.version)
  unfolding commit staged
  committed_write n n' h c body ms os v a k type_c ps e =
      let j = as_string h in
      let b = view d n j in
      let (m, m1, m2, t) = track-transaction h c body ms b a k ps in
      let final : view d n' j ≡ commit m =
        run-track d (transaction h body ms c) n n' os j v (as_string-IsKey h v.0) e
        ∙ t
        ∙ track-one j c [] m (commit m) (respond c (code Packet.two_pc_commit_ack) []) k
            (step-commit c [] m type_c) in
      (
        ap (λ x. x.content) final ∙ ap (λ l. some l.data_text) m2,
        ap (λ x. x.log.committed) final ∙ ap (λ l. l.pending) m2,
      )

  -- A write whose version is not 0 and not the block's committed version, whose range and old content
  -- stay below 2 ^ 32 bytes, whose body has the header's size, and whose prepare is agreed to, with a rollback after any messages that
  -- are passive at its block: if the server takes them all, the block's bytes are the old ones and
  -- nothing is pending.
  pub rolled_back_write :
      (n n' : Node d) (h c : Header) (body : Bytes) (ms : List Message) (os : List Outcome)
      → AllHeaders (transaction h body ms c)
      → Agreed h body (view d n (as_string h))
      → as_string c ≡ as_string h
      → msg_of c.type ≡ some Packet.two_pc_commit_rollback
      → All (PassiveAt (as_string h)) ms
      → run d n (transaction h body ms c) ≡ some (n', os)
      → (bytes_or_empty (view d n' (as_string h)).content
          ≡ bytes_or_empty (view d n (as_string h)).content)
        × (is_pending (view d n' (as_string h)).log ≡ false)
  unfolding rollback staged
  rolled_back_write n n' h c body ms os v a k type_c ps e =
      let j = as_string h in
      let b = view d n j in
      let (m, m1, m2, t) = track-transaction h c body ms b a k ps in
      let final : view d n' j ≡ rollback m =
        run-track d (transaction h body ms c) n n' os j v (as_string-IsKey h v.0) e
        ∙ t
        ∙ track-one j c [] m (rollback m) (respond c (code Packet.two_pc_commit_ack) []) k
            (step-rollback c [] m type_c) in
      (
        ap (λ x. bytes_or_empty x.content) final ∙ ap bytes_or_empty m1 ∙ bytes-opened b,
        ap (λ x. is_pending x.log) final ∙ is_pending-rollback m,
      )
