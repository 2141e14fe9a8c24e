-- ===== src/Ssbd/Key.antt =====
-- The keys of the two databases of ssbd/: `packet_header::as_string`, and the suffixes that
-- ssbd/persistent-log.hpp and `start_replication` of ssbd/main.cpp put behind it.
pub mod Distinct
use slsfs.Prelude.{◌++◌}
use slsfs.Bytes.{Bytes}
use slsfs.Text.{codes, to_string}
use slsfs.Ssbd.Packet.{Header}

-- The name of the file's block: `uuid`, then `std::to_string(blockid)`.
unfoldable pub as_string : Header → Bytes
as_string h = h.uuid ++ to_string h.blockid

-- What the log keeps of a block, each under a key of its own.
pub data Slot : Type 0 where
  committed_version pending_version pending_data : Slot

unfoldable pub suffix : Slot → Bytes
suffix committed_version = codes "-committed-version"
suffix pending_version = codes "-version"
suffix pending_data = codes "-data"

unfoldable pub slot_key : Slot → Bytes → Bytes
slot_key a key = key ++ suffix a

-- Where a replica of the block lies in the main database.
unfoldable pub replica_key : Bytes → Bytes
replica_key key = key ++ codes "repl"
