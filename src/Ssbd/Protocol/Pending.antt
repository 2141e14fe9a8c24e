-- ===== src/Ssbd/Protocol/Pending.antt =====
-- A pending write holds its block: what the other messages can do to it until it is settled.
use slsfs.Ssbd.Kv.{bytes_or_empty}
use slsfs.Ssbd.Block.{read_block, overwrite}
use slsfs.Ssbd.Log.View.{Bytes-discrete, is_pending}
use slsfs.Ssbd.Protocol.{as_string, Message, track, after}
use slsfs.Bytes.{Bytes}
use slsfs.Prelude.{
  sym, if_pos, ap, ◌∙◌, if_neg, ◌≢◌, All, Option, List, Option-cases, ◌≡◌, Bool, refl, inr, inl,
  false, true, none, some, ◌∷◌, [],
}
use slsfs.Ssbd.Spec.{step, prepare, read, replicate_to, opened, BlockState, prepare_opened}
use slsfs.Ssbd.Packet
use slsfs.Ssbd.Packet.{msg_of, Header, Msg}

-- The messages that do not replace or settle a pending write.
pub is_passive : Option Msg → Bool
is_passive (some Packet.two_pc_prepare_quick) = false
is_passive (some Packet.two_pc_commit_execute) = false
is_passive (some Packet.two_pc_commit_rollback) = false
is_passive t = true

-- A message to another block, or a passive one.
abbrev pub PassiveAt : Bytes → Message → Type 0
PassiveAt j m = as_string m.0 ≡ j → is_passive (msg_of m.0.type) ≡ true

-- A message to another block, or one that is no commit.
abbrev pub NoCommitAt : Bytes → Message → Type 0
NoCommitAt j m = as_string m.0 ≡ j → msg_of m.0.type ≢ some Packet.two_pc_commit_execute

pub opened-some : (b : BlockState) (c : Bytes) → b.content ≡ some c → opened b ≡ b
unfolding opened
opened-some b c e = rw e

abbrev Kept : BlockState → BlockState → Type 0
Kept b b' = (b'.content ≡ b.content) × (b'.log ≡ b.log)

replicate-Kept :
    (h : Header) (body : Bytes) (b : BlockState) → Kept b (after b (replicate_to h body b))
unfolding replicate_to
replicate-Kept h body b =
    elim (Option-cases (overwrite (bytes_or_empty b.replica) h.position h.datasize body)) [
      | inl fault ↦ rw fault (refl, refl)
      | inr (block, e) ↦ rw e (refl, refl)
    ]

read-same : (h : Header) (b : BlockState) → after b (read h b) ≡ b
unfolding read
read-same h b =
    elim b.content
      as (λ c.
        after (record b { content = c }) (read h (record b { content = c }))
        ≡ record b { content = c }) [
          | none ↦ refl
          | some block ↦ elim (Option-cases (read_block block h.position h.datasize)) [
            | inl fault ↦ rw fault
            | inr (buf, e) ↦ rw e
          ]
        ]

step-passive :
    (h : Header) (body : Bytes) (b : BlockState) (c : Bytes)
    → is_passive (msg_of h.type) ≡ true
    → b.content ≡ some c
    → is_pending b.log ≡ true
    → Kept b (after b (step h body b))
unfolding step prepare prepare_opened is_passive
step-passive h body b c p e busy = by_type (msg_of h.type) refl
  where
    by_type : (t : Option Msg) → msg_of h.type ≡ t → Kept b (after b (step h body b))
    by_type (some Packet.two_pc_prepare) q =
        rw (q, step) (rw (opened-some b c e) (rw (busy, prepare_opened) (refl, refl)))
    by_type (some Packet.two_pc_prepare_quick) q =
        let impossible : false ≡ true = ap is_passive (sym q) ∙ p in cc
    by_type (some Packet.two_pc_commit_execute) q =
        let impossible : false ≡ true = ap is_passive (sym q) ∙ p in cc
    by_type (some Packet.two_pc_commit_rollback) q =
        let impossible : false ≡ true = ap is_passive (sym q) ∙ p in cc
    by_type (some Packet.replication) q = rw (q, step) (replicate-Kept h body b)
    by_type (some Packet.get) q = rw (q, step) (rw (read-same h b) (refl, refl))
    by_type none q = rw (q, step) (refl, refl)
    by_type (some other) q = rw (q, step) (refl, refl)

pub track-passive :
    (j : Bytes) (ms : List Message) (b : BlockState) (c : Bytes)
    → All (PassiveAt j) ms
    → b.content ≡ some c
    → is_pending b.log ≡ true
    → Kept b (track j b ms)
unfolding track
track-passive j [] b c ps e busy = (refl, refl)
track-passive j ((h, body) ∷ ms) b c ps e busy = elim (Bytes-discrete (as_string h) j) [
  | no q ↦ rw (if_neg _ q, track) (track-passive j ms b c ps.1 e busy)
  | yes q ↦
      let (k1, k2) = step-passive h body b c (ps.0 q) e busy in
      let (r1, r2) =
        track-passive j ms (after b (step h body b)) c ps.1 (k1 ∙ e) (ap is_pending k2 ∙ busy) in
      rw (if_pos _ q, track) (r1 ∙ k1, r2 ∙ k2)
]
