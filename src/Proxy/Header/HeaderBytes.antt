-- ===== src/Proxy/Header/HeaderBytes.antt =====
-- A packet is read back as it was written, and packets are compared by their bytes.
use slsfs.Bytes.{Bytes}
use slsfs.Proxy.Header.{
  IsPacketHeader, dump_header, PacketHeader, serialize_packet, packet_header_full_key_compare,
  parse_header,
}
use mathlib.Core.List.{append_assoc}
use slsfs.Prelude.{◌%◌, ◌^◌, ◌<◌, length, ap₂, ◌↔◌, arith, ==_refl, ◌≡◌, refl, true, some, ◌∷◌, []}
use slsfs.Bytes.Laws.{load-store, ntoh-load-store, fetch-append, fetch-store}
use slsfs.Cache.Table.{same_bytes}

-- A packet that was serialized is parsed into its header, with the size of its data, and the data is
-- what is left in the buffer.
pub parse_header-serialize_packet :
    (h : PacketHeader) (buf : Bytes)
    → IsPacketHeader h
    → length buf < 2 ^ 32
    → parse_header (serialize_packet h buf).1 ≡ some (record h { datasize = length buf }, buf)
unfolding parse_header serialize_packet dump_header
parse_header-serialize_packet h buf v small =
    let whole : length buf % 2 ^ 32 ≡ length buf = omega arith in
    rw whole (
      simp (
        append_assoc,
        fetch-store,
        fetch-append,
        v.key_size,
        v.sequence_size,
        v.salt_size,
        load-store 1 h.type v.type_fits,
        ntoh-load-store 4 (length buf) small,
      ))

pub same_bytes_refl : (xs : Bytes) → same_bytes xs xs ≡ true
unfolding same_bytes
same_bytes_refl [] = refl
same_bytes_refl (x ∷ xs) = rw (==_refl x) (same_bytes_refl xs)

pub same_bytes-eq : (xs ys : Bytes) → same_bytes xs ys ≡ true → xs ≡ ys
unfolding same_bytes
same_bytes-eq [] [] e = refl
same_bytes-eq [] (y ∷ ys) e = cc
same_bytes-eq (x ∷ xs) [] e = cc
same_bytes-eq (x ∷ xs) (y ∷ ys) e =
    let head : x ≡ y = ground (arith, e) in
    let rest : same_bytes xs ys ≡ true = ground (arith, e) in
    ap₂ (λ a l. a ∷ l) head (same_bytes-eq xs ys rest)

-- Two headers compare as equal exactly when their keys, salts and sequences are.
pub packet_header_full_key_compare_lem :
    (a b : PacketHeader)
    → (packet_header_full_key_compare a b ≡ true)
      ↔ ((a.key ≡ b.key) × (a.random_salt ≡ b.random_salt) × (a.sequence ≡ b.sequence))
unfolding packet_header_full_key_compare
packet_header_full_key_compare_lem a b = (
  λ e. (
    same_bytes-eq a.key b.key (ground (arith, e)),
    same_bytes-eq a.random_salt b.random_salt (ground (arith, e)),
    same_bytes-eq a.sequence b.sequence (ground (arith, e)),
  ),
  λ e.
      let (k, s, q) = e in
      rw k (
        rw s (
          rw q (
            ground (
              arith,
              same_bytes_refl b.key,
              same_bytes_refl b.random_salt,
              same_bytes_refl b.sequence,
            )))),
)
