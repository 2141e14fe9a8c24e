-- ===== src/Ssbd/Protocol/Reply.antt =====
-- What every message is answered, and when none of them runs outside a buffer.
use slsfs.Ssbd.Node.Simulation.{start_read_header_refines}
use slsfs.Ssbd.Key.Distinct.{as_string-IsKey}
use slsfs.Ssbd.Key.{as_string}
use slsfs.Ssbd.Node.View.{view}
use slsfs.Ssbd.Node.Refine.{seen, placed}
use slsfs.Ssbd.Log.View.{is_pending}
use slsfs.Ssbd.Kv.{Db, bytes_or_empty}
use slsfs.Ssbd.Block.{read_block, overwrite}
use slsfs.Bytes.{Bytes}
use slsfs.Prelude.{
  ◌∙◌, some_inj, ap, sym, subst, Bool-cases, ◌≡◌, Option-cases, ℕ, Option, refl, inr, inl, true,
  none, some,
}
use slsfs.Ssbd.Spec.{
  stage, step, prepare, prepare_quick, read, replicate_to, opened, BlockState, prepare_opened,
}
use slsfs.Ssbd.Packet
use slsfs.Ssbd.Packet.{IsHeader, msg_of, Header, Msg, code, Packet}
use slsfs.Ssbd.Node.{start_read_header, Node, respond, Outcome}

-- A reply that carries the request's header, but for the type, on a connection that reads on.
abbrev pub RepliesTo : Header → Outcome → Type 0
RepliesTo h o =
    (p : Packet) × (o.reply ≡ some p)
    × (p.header ≡ record h { type = p.header.type })
    × (o.reads_on ≡ true)

abbrev Answered : Header → Option (BlockState × Outcome) → Type 0
Answered h none = Unit
Answered h (some (b, o)) = RepliesTo h o

respond-RepliesTo : (h : Header) (type : ℕ) (body : Bytes) → RepliesTo h (respond h type body)
unfolding respond
respond-RepliesTo h type body =
    (record { header = record h { type = type }; data_buf = body }, refl, refl, refl)

stage-Answered : (h : Header) (body : Bytes) (b : BlockState) → Answered h (stage h body b)
unfolding stage
stage-Answered h body b =
    elim (Option-cases (overwrite (bytes_or_empty b.content) h.position h.datasize body)) [
      | inl fault ↦ rw fault tt
      | inr (block, e) ↦ rw e (respond-RepliesTo h _ _)
    ]

prepare-Answered :
    (h : Header) (body : Bytes) (b : BlockState) → Answered h (prepare_opened h body b)
unfolding prepare_opened
prepare-Answered h body b = elim (Bool-cases (is_pending b.log)) [
  | inl on ↦ rw on (respond-RepliesTo h _ _)
  | inr off ↦ rw off (stage-Answered h body b)
]

replicate-Answered :
    (h : Header) (body : Bytes) (b : BlockState) → Answered h (replicate_to h body b)
unfolding replicate_to
replicate-Answered h body b =
    elim (Option-cases (overwrite (bytes_or_empty b.replica) h.position h.datasize body)) [
      | inl fault ↦ rw fault tt
      | inr (block, e) ↦ rw e (respond-RepliesTo h _ _)
    ]

read-Answered : (h : Header) (b : BlockState) → Answered h (read h b)
unfolding read
read-Answered h b = elim b.content as (λ c. Answered h (read h (record b { content = c }))) [
  | none ↦ respond-RepliesTo h _ _
  | some block ↦ elim (Option-cases (read_block block h.position h.datasize)) [
    | inl fault ↦ rw fault tt
    | inr (buf, e) ↦ rw e (respond-RepliesTo h _ _)
  ]
]

step-Answered :
    (h : Header) (body : Bytes) (b : BlockState) (m : Msg)
    → msg_of h.type ≡ some m
    → Answered h (step h body b)
unfolding step prepare prepare_quick
step-Answered h body b Packet.two_pc_prepare e = rw (e, step) (prepare-Answered h body (opened b))
step-Answered h body b Packet.two_pc_prepare_quick e =
    rw (e, step) (stage-Answered h body (opened b))
step-Answered h body b Packet.replication e = rw (e, step) (replicate-Answered h body b)
step-Answered h body b Packet.get e = rw (e, step) (read-Answered h b)
step-Answered h body b Packet.two_pc_commit_execute e = rw (e, step) (respond-RepliesTo h _ _)
step-Answered h body b Packet.two_pc_commit_rollback e = rw (e, step) (respond-RepliesTo h _ _)
step-Answered h body b other e = rw (e, step) (respond-RepliesTo h _ _)

seen-Answered :
    (d : Db) (h : Header) (k : Bytes) (w : BlockState) (s : Option (BlockState × Outcome))
    (v : BlockState) (o : Outcome)
    → Answered h s
    → some (v, o) ≡ placed k k w s
    → RepliesTo h o
seen-Answered d h k w none v o a e = cc
seen-Answered d h k w (some (b, o')) v o a e =
    subst (RepliesTo h) (sym (ap (λ p. p.1) (some_inj e))) a

module _ (d : Db) where
  -- A message of a known type that the server takes is answered with a packet that carries the
  -- message's header but for the type, and the connection reads on.
  pub every_message_answered :
      (n n' : Node d) (h : Header) (body : Bytes) (m : Msg) (o : Outcome)
      → IsHeader h
      → msg_of h.type ≡ some m
      → start_read_header d n h body ≡ some (n', o)
      → RepliesTo h o
  every_message_answered n n' h body m o v t e =
      let key = as_string h in
      let b = view d n key in
      seen-Answered d h key b (step h body b) (view d n' key) o (step-Answered h body b m t)
        (ap (seen d key) (sym e) ∙ start_read_header_refines d n h body key v (as_string-IsKey h v))
