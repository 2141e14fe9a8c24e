-- ===== src/Ssbd/Packet.antt =====
-- ssbd/leveldb-serializer.hpp: the packet that a backend and a block server exchange.
pub mod RoundTrip
use mathlib.Core.Logic.{ite}
use slsfs.Prelude.{
  inr, inl, ◌>>=◌, ℕ, zero, suc, ◌+◌, ◌*◌, ◌/◌, ◌%◌, ◌^◌, ◌≤◌, ◌<◌, ◌≡◌, refl, Bool, true, false,
  ◌&&◌, not, List, [], ◌∷◌, ◌++◌, arith, Option, none, some, if◌then◌else◌, ◌==◌, length, All,
}
use Prim.Native.Nat.{bit_and}
use slsfs.Bytes.{IsByte, Bytes, store, load, hton, ntoh, fetch}

-- `enum class msg_t : std::uint16_t`
pub data Msg : Type 0 where
  err ack get two_pc_prepare two_pc_prepare_quick two_pc_prepare_agree two_pc_prepare_abort
        two_pc_commit_execute two_pc_commit_rollback two_pc_commit_ack replication :
      Msg

unfoldable pub code : Msg → ℕ
code err = 0
code ack = 1
code get = 2
code two_pc_prepare = 8
code two_pc_prepare_quick = 9
code two_pc_prepare_agree = 10
code two_pc_prepare_abort = 11
code two_pc_commit_execute = 12
code two_pc_commit_rollback = 13
code two_pc_commit_ack = 14
code replication = 15

-- What a `switch` on the field makes of it: an enumerator, or a value that no case lists.
unfoldable pub msg_of : ℕ → Option Msg
msg_of t =
    if t == 0
    then some err
    else if t == 1
    then some ack
    else if t == 2
    then some get
    else if t == 8
    then some two_pc_prepare
    else if t == 9
    then some two_pc_prepare_quick
    else if t == 10
    then some two_pc_prepare_agree
    else if t == 11
    then some two_pc_prepare_abort
    else if t == 12
    then some two_pc_commit_execute
    else if t == 13
    then some two_pc_commit_rollback
    else if t == 14
    then some two_pc_commit_ack
    else if t == 15
    then some replication
    else none

-- `static_cast<unit_t>(msg) & 0b00001000`
unfoldable pub is_merge_request : Msg → Bool
unfolding code
is_merge_request m = not (bit_and (code m % 256) 8 == 0)

-- `struct packet_header`; `type` holds the enumeration's code, which `memcpy` fills unchecked.
pub record Header : Type 0 where
  pub type : ℕ
  pub uuid : Bytes
  pub blockid : ℕ
  pub position : ℕ
  pub datasize : ℕ
  pub version : ℕ
  pub salt : Bytes

-- `sizeof` of the fields, summed.
abbrev pub bytesize : ℕ
bytesize = 2 + 32 + 4 + 2 + 4 + 4 + 4

-- What the field types hold.
pub record IsHeader (h : Header) : Type 0 where
  pub type_fits : h.type < 2 ^ 16
  pub uuid_size : length h.uuid ≡ 32
  pub uuid_bytes : All IsByte h.uuid
  pub blockid_fits : h.blockid < 2 ^ 32
  pub position_fits : h.position < 2 ^ 16
  pub datasize_fits : h.datasize < 2 ^ 32
  pub version_fits : h.version < 2 ^ 32
  pub salt_size : length h.salt ≡ 4
  pub salt_bytes : All IsByte h.salt

-- `packet_header::dump`: the bytes that it writes. `type` is not turned round.
unfoldable pub dump : Header → Bytes
dump h =
    store 2 h.type
    ++ (h.uuid
        ++ (store 4 (hton 4 h.blockid)
            ++ (store 2 (hton 2 h.position)
                ++ (store 4 (hton 4 h.datasize) ++ (store 4 (hton 4 h.version) ++ h.salt)))))

-- `packet_header::parse`: the header, and the buffer behind it.
unfoldable pub parse : Bytes → Option (Header × Bytes)
parse buf = do
  (t, buf) ← fetch 2 buf
  (u, buf) ← fetch 32 buf
  (b, buf) ← fetch 4 buf
  (p, buf) ← fetch 2 buf
  (d, buf) ← fetch 4 buf
  (v, buf) ← fetch 4 buf
  (s, buf) ← fetch 4 buf
  some (
    record {
      type = load t;
      uuid = u;
      blockid = ntoh 4 (load b);
      position = ntoh 2 (load p);
      datasize = ntoh 4 (load d);
      version = ntoh 4 (load v);
      salt = s;
    },
    buf,
  )

pub record Packet : Type 0 where
  pub header : Header
  pub data_buf : Bytes

-- `packet::serialize`: `datasize` is set from the data (`std::uint32_t`), then both are written.
unfoldable pub serialize : Packet → Packet × Bytes
unfolding dump
serialize p =
    let h = record (p.header) { datasize = length p.data_buf % 2 ^ 32 } in
    (record p { header = h }, dump h ++ p.data_buf)
