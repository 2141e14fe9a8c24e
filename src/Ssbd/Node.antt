-- ===== src/Ssbd/Node.antt =====
-- ssbd/main.cpp, `tcp_connection`: what a block server does with each message. A handler takes the
-- header and the body that `async_read` delivered, and returns the server's state, the reply that is
-- written to the socket, and whether the connection reads on. `none` is undefined behaviour.
-- A read that fails ends the connection and changes nothing; it is not modelled.
pub mod View
pub mod Open
pub mod Refine
pub mod Simulation
use slsfs.Prelude.{
  refl, suc, zero, inr, inl, ◌∷◌, ◌>>=◌, Bool, Option, if◌then◌else◌, false, true, none, some, [],
  ℕ,
}
use slsfs.Bytes.{Bytes}
use slsfs.Ssbd.Packet.{
  Header, Packet, code, msg_of, err, ack, get, two_pc_prepare, two_pc_prepare_quick,
  two_pc_prepare_agree, two_pc_prepare_abort, two_pc_commit_execute, two_pc_commit_rollback,
  two_pc_commit_ack, replication,
}
use slsfs.Ssbd.Kv.{Db, bytes_or_empty}
use slsfs.Ssbd.Key.{as_string, replica_key}
use slsfs.Ssbd.Block.{overwrite, read_block}
use slsfs.Ssbd.Log.{
  get_committed_version, put_committed_version, put_pending_prepare, commit_pending_prepare,
  have_pending_log,
}

-- The main database and the log.
pub record Node (d : Db) : Type 0 where
  pub db : d.Store
  pub log : d.Store

pub record Outcome : Type 0 where
  pub reply : Option Packet
  pub reads_on : Bool

-- `resp->header = pack->header`, with a type of its own.
unfoldable pub respond : Header → ℕ → Bytes → Outcome
respond h type body = record {
  reply = some (record { header = record h { type = type }; data_buf = body });
  reads_on = true;
}

module _ (d : Db) where
  open d use {find, put}

  -- A block that does not exist is made empty, with version 0 committed and none pending.
  unfoldable pub open_block : Node d → Bytes → Node d
  open_block n key = elim (find n.db key) [
    | some old ↦ n
    | none ↦ record n {
      db = put n.db key [];
      log = put_pending_prepare d (put_committed_version d n.log key 0) key [] 0;
    }
  ]

  -- The new block goes to the log; `get_committed_version` is called once more at the end.
  unfoldable pub stage : Node d → Header → Bytes → Bytes → Option (Node d × Outcome)
  stage n h body old = do
    block ← overwrite old h.position h.datasize body
    let log = put_pending_prepare d n.log (as_string h) block h.version
    some (
      record n { log = (get_committed_version d log (as_string h)).1 },
      respond h (code two_pc_prepare_agree) [],
    )

  unfoldable pub stage_or_abort : Node d → Header → Bytes → Bytes → Option (Node d × Outcome)
  stage_or_abort n h body old =
      let (busy, log) = have_pending_log d n.log (as_string h) in
      let aborted = record n { log = (get_committed_version d log (as_string h)).1 } in
      if busy
      then some (aborted, respond h (code two_pc_prepare_abort) [])
      else stage (record n { log = log }) h body old

  unfoldable pub start_two_pc_prepare : Node d → Header → Bytes → Option (Node d × Outcome)
  start_two_pc_prepare n h body =
      let n = open_block n (as_string h) in
      elim (find n.db (as_string h)) [
        | none ↦ some (n, respond h (code two_pc_prepare_agree) [])
        | some old ↦ stage_or_abort n h body old
      ]

  unfoldable pub start_two_pc_prepare_quick : Node d → Header → Bytes → Option (Node d × Outcome)
  start_two_pc_prepare_quick n h body =
      let n = open_block n (as_string h) in
      elim (find n.db (as_string h)) [
        | none ↦ some (n, respond h (code two_pc_prepare_agree) [])
        | some old ↦ stage n h body old
      ]

  unfoldable pub start_two_pc_commit_execute : Node d → Header → Node d × Outcome
  start_two_pc_commit_execute n h =
      let (log, db) = commit_pending_prepare d n.log (as_string h) n.db in
      (record { db = db; log = log }, respond h (code two_pc_commit_ack) [])

  unfoldable pub start_two_pc_commit_rollback : Node d → Header → Node d × Outcome
  start_two_pc_commit_rollback n h = (
    record n { log = put_pending_prepare d n.log (as_string h) [] 0 },
    respond h (code two_pc_commit_ack) [],
  )

  unfoldable pub start_replication : Node d → Header → Bytes → Option (Node d × Outcome)
  start_replication n h body =
      let key = replica_key (as_string h) in
      do
        block ← overwrite (bytes_or_empty (find n.db key)) h.position h.datasize body
        some (record n { db = put n.db key block }, respond h (code ack) [])

  unfoldable pub start_db_read : Node d → Header → Option (Node d × Outcome)
  start_db_read n h = elim (find n.db (as_string h)) [
    | none ↦ some (n, respond h (code err) [])
    | some block ↦ do
      buf ← read_block block h.position h.datasize
      some (n, respond h (code ack) buf)
  ]

  -- The `switch` of `start_read_header`. A type that no case lists leaves the connection unread.
  unfoldable pub start_read_header : Node d → Header → Bytes → Option (Node d × Outcome)
  start_read_header n h body = elim (msg_of h.type) [
    | some two_pc_prepare ↦ start_two_pc_prepare n h body
    | some two_pc_prepare_quick ↦ start_two_pc_prepare_quick n h body
    | some two_pc_commit_execute ↦ some (start_two_pc_commit_execute n h)
    | some two_pc_commit_rollback ↦ some (start_two_pc_commit_rollback n h)
    | some replication ↦ start_replication n h body
    | some get ↦ start_db_read n h
    | none ↦ some (n, record { reply = none; reads_on = false })
    | _ ↦ some (n, respond h (code err) [])
  ]
