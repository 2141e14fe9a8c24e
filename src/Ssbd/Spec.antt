-- ===== src/Ssbd/Spec.antt =====
-- What the block server promises, block by block: a two-phase commit register with one pending slot
-- and a replica beside it. No key, no text and no second block is in sight.
use slsfs.Prelude.{◌>>=◌, Option, if◌then◌else◌, false, none, some, []}
use slsfs.Bytes.{Bytes}
use slsfs.Ssbd.Kv.{bytes_or_empty}
use slsfs.Ssbd.Packet.{
  Header, code, msg_of, err, ack, get, two_pc_prepare, two_pc_prepare_quick, two_pc_prepare_agree,
  two_pc_prepare_abort, two_pc_commit_execute, two_pc_commit_rollback, two_pc_commit_ack,
  replication,
}
use slsfs.Ssbd.Block.{overwrite, read_block}
use slsfs.Ssbd.Log.View.{LogView, is_pending}
use slsfs.Ssbd.Node.{Outcome, respond}

pub record BlockState : Type 0 where
  pub content : Option Bytes
  pub replica : Option Bytes
  pub log : LogView

-- A block that is made: empty, with version 0 committed and nothing pending.
unfoldable pub created : BlockState → BlockState
created b = record b {
  content = some [];
  log = record { committed = 0; pending = 0; data_text = [] };
}

-- A prepare brings a block into being.
unfoldable pub opened : BlockState → BlockState
opened b = elim b.content [ some old ↦ b | none ↦ created b ]

unfoldable pub stage : Header → Bytes → BlockState → Option (BlockState × Outcome)
stage h body b = do
  block ← overwrite (bytes_or_empty b.content) h.position h.datasize body
  some (
    record b { log = record (b.log) { pending = h.version; data_text = block } },
    respond h (code two_pc_prepare_agree) [],
  )

-- Only where nothing is pending a prepare is agreed to.
unfoldable pub prepare_opened : Header → Bytes → BlockState → Option (BlockState × Outcome)
prepare_opened h body b =
    if is_pending b.log then some (b, respond h (code two_pc_prepare_abort) []) else stage h body b

unfoldable pub prepare : Header → Bytes → BlockState → Option (BlockState × Outcome)
prepare h body b = prepare_opened h body (opened b)

-- What a backend sends for a file whose last write it committed itself: no test of the log.
unfoldable pub prepare_quick : Header → Bytes → BlockState → Option (BlockState × Outcome)
prepare_quick h body b = stage h body (opened b)

-- The pending block becomes the content, and its version the committed one.
unfoldable pub commit : BlockState → BlockState
commit b = record b {
  content = some b.log.data_text;
  log = record (b.log) { committed = b.log.pending };
}

unfoldable pub rollback : BlockState → BlockState
rollback b = record b { log = record (b.log) { pending = 0; data_text = [] } }

unfoldable pub replicate_to : Header → Bytes → BlockState → Option (BlockState × Outcome)
replicate_to h body b = do
  block ← overwrite (bytes_or_empty b.replica) h.position h.datasize body
  some (record b { replica = some block }, respond h (code ack) [])

unfoldable pub read : Header → BlockState → Option (BlockState × Outcome)
read h b = elim b.content [
  | none ↦ some (b, respond h (code err) [])
  | some block ↦ do buf ← read_block block h.position h.datasize; some (b, respond h (code ack) buf)
]

unfoldable pub step : Header → Bytes → BlockState → Option (BlockState × Outcome)
step h body b = elim (msg_of h.type) [
  | some two_pc_prepare ↦ prepare h body b
  | some two_pc_prepare_quick ↦ prepare_quick h body b
  | some two_pc_commit_execute ↦ some (commit b, respond h (code two_pc_commit_ack) [])
  | some two_pc_commit_rollback ↦ some (rollback b, respond h (code two_pc_commit_ack) [])
  | some replication ↦ replicate_to h body b
  | some get ↦ read h b
  | none ↦ some (b, record { reply = none; reads_on = false })
  | _ ↦ some (b, respond h (code err) [])
]
