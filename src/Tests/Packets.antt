-- ===== src/Tests/Packets.antt =====
-- The packets', keys' and blocks' theorems at small inputs.
use slsfs.Bytes.{IsByte}
use slsfs.Tests.{uuid_a}
use slsfs.Proxy.Header.{PacketHeader, parse_header, serialize_packet}
use slsfs.Proxy.Header.HeaderBytes.{parse_header-serialize_packet}
use slsfs.Tests.{valid_a, written_a, prepare_a}
use slsfs.Prelude.{All-replicate, refl, ◌∷◌, [], ◌++◌, arith, ◌≡◌, some}
use slsfs.Ssbd.Packet
use slsfs.Ssbd.Packet.{IsHeader, dump, parse, Msg, Header, code}
use slsfs.Ssbd.Packet.RoundTrip.{parse-dump}

parse-dump_example : parse (dump prepare_a ++ written_a) ≡ some (prepare_a, written_a)
parse-dump_example = parse-dump prepare_a written_a (valid_a Packet.two_pc_prepare 3 (omega arith))

abbrev packet_a : PacketHeader
packet_a = record {
  type = 10;
  key = uuid_a;
  sequence = 1 ∷ 2 ∷ 3 ∷ 4 ∷ [];
  random_salt = 5 ∷ 6 ∷ 7 ∷ 8 ∷ [];
  datasize = 0;
}

parse_header-serialize_packet_example :
    parse_header (serialize_packet packet_a written_a).1
    ≡ some (record packet_a { datasize = 3 }, written_a)
parse_header-serialize_packet_example =
    parse_header-serialize_packet packet_a written_a
      (record {
        type_fits = omega arith;
        key_size = refl;
        key_bytes = All-replicate IsByte 32 65 (omega arith);
        sequence_size = refl;
        sequence_bytes = (omega arith, (omega arith, (omega arith, (omega arith, tt))));
        salt_size = refl;
        salt_bytes = (omega arith, (omega arith, (omega arith, (omega arith, tt))));
        datasize_fits = omega arith;
      })
      (omega arith)
