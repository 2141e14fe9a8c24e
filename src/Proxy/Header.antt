-- ===== src/Proxy/Header.antt =====
-- proxy/serializer.hpp: `packet_header` and `packet`. The byte order of `datasize` is turned round; the
-- other fields are bytes.
pub mod HeaderBytes
use slsfs.Cache.Table.{same_bytes}
use slsfs.Bytes.{ntoh, IsByte, load, hton, fetch, store, Bytes}
use slsfs.Prelude.{
  All, ◌%◌, ◌++◌, ◌≡◌, ◌&&◌, ◌==◌, ◌^◌, length, get_or, Option, ◌<◌, Bool, ◌>>=◌, if◌then◌else◌,
  refl, suc, zero, inr, inl, false, true, none, some, ◌∷◌, [], ℕ,
}

pub record PacketHeader : Type 0 where
  pub type : ℕ
  pub key : Bytes
  pub sequence : Bytes
  pub random_salt : Bytes
  pub datasize : ℕ

-- What the field types hold.
pub record IsPacketHeader (h : PacketHeader) : Type 0 where
  pub type_fits : h.type < 2 ^ 8
  pub key_size : length h.key ≡ 32
  pub key_bytes : All IsByte h.key
  pub sequence_size : length h.sequence ≡ 4
  pub sequence_bytes : All IsByte h.sequence
  pub salt_size : length h.random_salt ≡ 4
  pub salt_bytes : All IsByte h.random_salt
  pub datasize_fits : h.datasize < 2 ^ 32

-- `packet_header::dump`
unfoldable pub dump_header : PacketHeader → Bytes
dump_header h =
    store 1 h.type ++ (h.key ++ (h.sequence ++ (h.random_salt ++ store 4 (hton 4 h.datasize))))

-- `packet_header::parse`, with the buffer behind the header.
unfoldable pub parse_header : Bytes → Option (PacketHeader × Bytes)
parse_header buf = do
  (t, buf) ← fetch 1 buf
  (k, buf) ← fetch 32 buf
  (q, buf) ← fetch 4 buf
  (s, buf) ← fetch 4 buf
  (d, buf) ← fetch 4 buf
  some (
    record { type = load t; key = k; sequence = q; random_salt = s; datasize = ntoh 4 (load d) },
    buf,
  )

unfoldable pub is_trigger : PacketHeader → Bool
is_trigger h = get_or h.random_salt 3 0 == 0

unfoldable pub all_zero : Bytes → Bool
all_zero [] = true
all_zero (b ∷ bs) = b == 0 && all_zero bs

-- `packet_header::empty`
unfoldable pub is_empty : PacketHeader → Bool
is_empty h = all_zero h.key && all_zero h.sequence

-- `packet_header_key_compare` and `packet_header_full_key_compare`
unfoldable pub packet_header_key_compare : PacketHeader → PacketHeader → Bool
packet_header_key_compare a b = same_bytes a.key b.key

unfoldable pub packet_header_full_key_compare : PacketHeader → PacketHeader → Bool
packet_header_full_key_compare a b =
    same_bytes a.key b.key
    && same_bytes a.random_salt b.random_salt
    && same_bytes a.sequence b.sequence

-- `packet::serialize`: the size is set from the data.
unfoldable pub serialize_packet : PacketHeader → Bytes → PacketHeader × Bytes
serialize_packet h buf =
    let h : PacketHeader = record h { datasize = length buf % 2 ^ 32 } in (h, dump_header h ++ buf)
