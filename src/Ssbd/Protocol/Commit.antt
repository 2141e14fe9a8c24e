-- ===== src/Ssbd/Protocol/Commit.antt =====
-- The two phases on one block: a write that is agreed to, committed and read back.
use slsfs.Ssbd.Block.{read_block}
use slsfs.Ssbd.Log.View.{is_pending}
use slsfs.Ssbd.Block.Content.{overwrite_lem, written}
use slsfs.Bytes.{Bytes}
use slsfs.Ssbd.Kv.{bytes_or_empty}
use slsfs.Ssbd.Packet.{code, IsHeader, msg_of, Header}
use slsfs.Ssbd.Node.{respond}
use slsfs.Prelude.{
  arith, sym, ◌^◌, ◌⊎◌, ◌<◌, ◌+◌, ◌≡◌, length, refl, inr, inl, false, none, some, [],
}
use slsfs.Ssbd.Packet
use slsfs.Ssbd.Node.{respond}
use slsfs.Ssbd.Spec.{
  stage, step, prepare, prepare_quick, read, commit, rollback, opened, created, BlockState,
  prepare_opened,
}

pub bytes-opened : (b : BlockState) → bytes_or_empty (opened b).content ≡ bytes_or_empty b.content
unfolding opened created bytes_or_empty
bytes-opened b =
    elim b.content
      as (λ c. bytes_or_empty (opened (record b { content = c })).content ≡ bytes_or_empty c) [
        | none ↦ refl
        | some old ↦ refl
      ]

-- The block once a write is staged.
unfoldable pub staged : Header → Bytes → BlockState → BlockState
unfolding opened
staged h body b = record (opened b) {
  log = record ((opened b).log) {
    pending = h.version;
    data_text = written (bytes_or_empty b.content) h.position body;
  };
}

stage_lem :
    (h : Header) (body : Bytes) (b : BlockState)
    → length body ≡ h.datasize
    → h.position + h.datasize < 2 ^ 32
    → length (bytes_or_empty b.content) < 2 ^ 32
    → stage h body (opened b)
      ≡ some (staged h body b, respond h (code Packet.two_pc_prepare_agree) [])
unfolding stage staged
stage_lem h body b size fits old = rw (bytes-opened b) (
    rw (sym size) (rw (overwrite_lem (bytes_or_empty b.content) h.position body (omega arith) old)))

-- A prepare of either kind that finds nothing in its way.
pub step-prepare :
    (h : Header) (body : Bytes) (b : BlockState)
    → (msg_of h.type ≡ some Packet.two_pc_prepare) × (is_pending (opened b).log ≡ false)
      ⊎ (msg_of h.type ≡ some Packet.two_pc_prepare_quick)
    → length body ≡ h.datasize
    → h.position + h.datasize < 2 ^ 32
    → length (bytes_or_empty b.content) < 2 ^ 32
    → step h body b ≡ some (staged h body b, respond h (code Packet.two_pc_prepare_agree) [])
unfolding step prepare prepare_opened prepare_quick
step-prepare h body b (inl (e, free)) size fits old =
    rw (e, step) (rw (free, prepare_opened) (stage_lem h body b size fits old))
step-prepare h body b (inr e) size fits old = rw (e, step) (stage_lem h body b size fits old)

pub step-commit :
    (h : Header) (body : Bytes) (b : BlockState)
    → msg_of h.type ≡ some Packet.two_pc_commit_execute
    → step h body b ≡ some (commit b, respond h (code Packet.two_pc_commit_ack) [])
unfolding step
step-commit h body b e = rw (e, step)

pub step-rollback :
    (h : Header) (body : Bytes) (b : BlockState)
    → msg_of h.type ≡ some Packet.two_pc_commit_rollback
    → step h body b ≡ some (rollback b, respond h (code Packet.two_pc_commit_ack) [])
unfolding step
step-rollback h body b e = rw (e, step)

-- A read of a block that was just committed.
pub step-get :
    (h : Header) (buf : Bytes) (b : BlockState)
    → msg_of h.type ≡ some Packet.get
    → read_block b.log.data_text h.position h.datasize ≡ some buf
    → step h [] (commit b) ≡ some (commit b, respond h (code Packet.ack) buf)
unfolding step read commit
step-get h buf b e r = rw (e, step) (rw r)
