-- ===== src/Tests.antt =====
-- Concrete inputs for the theorems: a database in memory, and messages to it.
pub mod Directories
pub mod Handover
pub mod Commands
pub mod Sockets
pub mod Jobs
pub mod Ring
pub mod Reads
pub mod Packets
pub mod Proxy
pub mod Server
pub mod Write
use slsfs.Backend.Requests.Wire.{code-lt}
use slsfs.Ssbd.Log.View.{Bytes-discrete}
use slsfs.Ssbd.Protocol.{run}
use slsfs.Bytes.{IsByte, Bytes}
use slsfs.Ssbd.Node.{Node}
use slsfs.Ssbd.Kv.{Db}
use slsfs.Prelude.{
  All-replicate, if_neg, arith, if_pos, ite, ◌≡◌, ◌^◌, replicate, Option, ◌<◌, ◌>>=◌, if◌then◌else◌,
  refl, suc, zero, inr, inl, false, true, none, some, ◌∷◌, [], ℕ,
}
use slsfs.Ssbd.Packet
use slsfs.Ssbd.Packet.{IsHeader, Msg, Header, code}

-- A database that holds everything in a function.
abbrev pub memory : Db
memory = record {
  Store = Bytes → Option Bytes;
  find = λ s k. s k;
  put = λ s k v j. ite (Bytes-discrete k j) (some v) (s j);
  find-put_self = λ s k v. if_pos (Bytes-discrete k k) refl _ _;
  find-put_ne = λ s k j v ne. if_neg (Bytes-discrete k j) ne _ _;
}

abbrev pub empty : Node memory
empty = record { db = λ k. none; log = λ k. none }

abbrev pub uuid_a : Bytes
uuid_a = replicate 32 65

abbrev pub header_of : Msg → ℕ → ℕ → ℕ → Header
header_of m block position datasize = record {
  type = code m;
  uuid = uuid_a;
  blockid = block;
  position = position;
  datasize = datasize;
  version = 7;
  salt = 1 ∷ 2 ∷ 3 ∷ 4 ∷ [];
}

pub header_of-IsHeader :
    (m : Msg) (block position datasize : ℕ)
    → block < 2 ^ 32
    → position < 2 ^ 16
    → datasize < 2 ^ 32
    → IsHeader (header_of m block position datasize)
header_of-IsHeader m block position datasize b p s = record {
  type_fits = code-lt m;
  uuid_size = refl;
  uuid_bytes = All-replicate IsByte 32 65 (omega arith);
  blockid_fits = b;
  position_fits = p;
  datasize_fits = s;
  version_fits = omega arith;
  salt_size = refl;
  salt_bytes = (omega arith, (omega arith, (omega arith, (omega arith, tt))));
}

abbrev pub written_a : Bytes
written_a = 5 ∷ 6 ∷ 7 ∷ []

abbrev pub prepare_a : Header
prepare_a = header_of Packet.two_pc_prepare 3 4 3

abbrev pub commit_a : Header
commit_a = header_of Packet.two_pc_commit_execute 3 4 0

abbrev pub rollback_a : Header
rollback_a = header_of Packet.two_pc_commit_rollback 3 4 0

abbrev pub get_a : Header
get_a = header_of Packet.get 3 4 3

pub valid_a : (m : Msg) (datasize : ℕ) → datasize < 2 ^ 32 → IsHeader (header_of m 3 4 datasize)
valid_a m datasize fits = header_of-IsHeader m 3 4 datasize (omega arith) (omega arith) fits
