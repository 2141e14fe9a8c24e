-- ===== src/Ssbd/Packet/RoundTrip.antt =====
-- A header that is written is read back.
use mathlib.Core.List.{append_assoc}
use slsfs.Prelude.{◌≡◌, ◌++◌, arith, some}
use slsfs.Bytes.{Bytes}
use slsfs.Bytes.Laws.{load-store, ntoh-load-store, fetch-append, fetch-store}
use slsfs.Ssbd.Packet.{Msg, code, msg_of, Header, IsHeader, dump, parse}

pub msg_of-code : (m : Msg) → msg_of (code m) ≡ some m
unfolding msg_of code
msg_of-code m = ground arith

-- A valid header that was dumped is parsed back, and the bytes behind it are left.
pub parse-dump : (h : Header) (rest : Bytes) → IsHeader h → parse (dump h ++ rest) ≡ some (h, rest)
unfolding parse dump
parse-dump h rest v = simp (
  append_assoc,
  fetch-store,
  fetch-append,
  v.uuid_size,
  v.salt_size,
  load-store 2 h.type v.type_fits,
  ntoh-load-store 4 h.blockid v.blockid_fits,
  ntoh-load-store 2 h.position v.position_fits,
  ntoh-load-store 4 h.datasize v.datasize_fits,
  ntoh-load-store 4 h.version v.version_fits,
)
