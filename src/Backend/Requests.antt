-- ===== src/Backend/Requests.antt =====
-- The packets that storage-conf-ssbd-backend.hpp makes of a request's chunks, and how
-- functions/libslsfs/slsfs/backend-ssbd.hpp puts them on the wire.
pub mod Wire
use slsfs.Ssbd.Node.{Outcome}
use slsfs.Ssbd.Protocol.{Message}
use slsfs.Backend.Split.{chunk_data, Chunk}
use slsfs.Bytes.{Bytes}
use slsfs.Prelude.{
  ◌++◌, Option, map, ◌^◌, ◌%◌, List, ◌==◌, Bool, ◌>>=◌, if◌then◌else◌, refl, suc, zero, inr, inl,
  false, true, none, some, ◌∷◌, [], ℕ,
}
use slsfs.Ssbd.Packet
use slsfs.Ssbd.Packet.{msg_of, serialize, dump, code, Msg, Header, Packet}

-- `leveldb_pack::create_request`, whose `size_t` arguments are cut to the fields. The salt is random.
unfoldable pub create_request : Bytes → Bytes → Msg → ℕ → ℕ → ℕ → ℕ → Packet
create_request salt name type version partition location size = record {
  header = record {
    type = code type;
    uuid = name;
    blockid = partition % 2 ^ 32;
    position = location % 2 ^ 16;
    datasize = size % 2 ^ 32;
    version = version;
    salt = salt;
  };
  data_buf = [];
}

-- `start_send_request`: a `get` sends its header alone, with the size to read in it; everything else
-- is serialized, which overwrites the size.
unfoldable pub start_send_request : Packet → Packet × Bytes
start_send_request p = if p.header.type == code Packet.get then (p, dump p.header) else serialize p

-- What a block server gets: the header, and the body that follows it.
unfoldable pub sent_message : Packet → Header × Bytes
sent_message p = ((start_send_request p).0.header, p.data_buf)

-- `salt` is what the generator gives to each packet.
module _ (salt : Msg → Chunk → Bytes) where
  -- One turn of the loop of `start_2pc_prepare`, with what `recoder_` knows of the file at that turn.
  unfoldable pub prepare_request : (Chunk → Bool) → Bytes → ℕ → Bytes → Chunk → Packet
  prepare_request is_checked uuid version xs c =
      let type = if is_checked c then Packet.two_pc_prepare_quick else Packet.two_pc_prepare in
      record (create_request (salt type c) uuid type version c.blockid c.offset c.size) {
        data_buf = chunk_data xs c;
      }

  -- One turn of the loop of `start_2pc_commit`.
  unfoldable pub commit_request : Bool → Bytes → ℕ → Chunk → Packet
  commit_request all_ssbd_agree uuid version c =
      let type =
        if all_ssbd_agree then Packet.two_pc_commit_execute else Packet.two_pc_commit_rollback in
      create_request (salt type c) uuid type version c.blockid c.offset 0

  -- The packet that `start_replication` makes for each further copy; its data stays empty.
  unfoldable pub replication_request : Bytes → ℕ → Chunk → Packet
  replication_request uuid version c =
      create_request (salt Packet.replication c) uuid Packet.replication version c.blockid c.offset
        c.size

  -- One turn of the loop of `start_read`.
  unfoldable pub read_request : Bytes → Chunk → Packet
  read_request uuid c =
      create_request (salt Packet.get c) uuid Packet.get 0 c.blockid c.offset c.size

  unfoldable pub prepare_messages : (Chunk → Bool) → Bytes → ℕ → Bytes → List Chunk → List Message
  prepare_messages is_checked uuid version xs =
      map (λ c. sent_message (prepare_request is_checked uuid version xs c))

  unfoldable pub commit_messages : Bool → Bytes → ℕ → List Chunk → List Message
  commit_messages all_ssbd_agree uuid version =
      map (λ c. sent_message (commit_request all_ssbd_agree uuid version c))

  unfoldable pub read_messages : Bytes → List Chunk → List Message
  read_messages uuid = map (λ c. sent_message (read_request uuid c))

-- What a response says to the coordinator, and the data in it.
unfoldable pub reply_type : Outcome → Option Msg
reply_type o = elim o.reply [ none ↦ none | some p ↦ msg_of p.header.type ]

unfoldable pub reply_data : Outcome → Bytes
reply_data o = elim o.reply [ none ↦ [] | some p ↦ p.data_buf ]

-- `collect` of `start_read`: the responses' data, in the order of the blocks.
unfoldable pub collect : List Outcome → Bytes
collect [] = []
collect (o ∷ os) = reply_data o ++ collect os
