-- ===== src/Writer.antt =====
-- proxy/socket-writer.hpp (and libslsfs/slsfs/socket-writer.hpp), `v1::socket_writer`: packets that are
-- written to a socket one after the other. Here each call and each callback runs as a whole; a write that
-- is in flight ends at some later time, well or with an error.
pub mod Fifo
pub mod Race
use slsfs.Prelude.{
  ◌+◌, ◌+◌, ℕ, ◌++◌, Bool, ◌++◌, List, ◌>>=◌, if◌then◌else◌, refl, suc, zero, inr, inl, false, true,
  none, some, ◌∷◌, [],
}
use slsfs.Bytes.{Bytes}

-- `write_queue_` and `is_writing_`; the writes that the socket has, those that ended well or not, in their
-- order, and how many did not end well.
pub record SocketWriter : Type 0 where
  pub queue : List Bytes
  pub is_writing : Bool
  pub in_flight : List Bytes
  pub ended : List Bytes
  pub errors : ℕ

unfoldable pub idle_writer : SocketWriter
idle_writer = record { queue = []; is_writing = false; in_flight = []; ended = []; errors = 0 }

unfoldable pub start_write_one_packet : SocketWriter → SocketWriter
start_write_one_packet s = elim s.queue [
  | [] ↦ record s { is_writing = false }
  | p ∷ ps ↦ record s { queue = ps; in_flight = s.in_flight ++ (p ∷ []) }
]

unfoldable pub start_write_socket : Bytes → SocketWriter → SocketWriter
start_write_socket p s =
    let pushed : SocketWriter = record s { queue = s.queue ++ (p ∷ []) } in
    if s.is_writing then pushed else start_write_one_packet (record pushed { is_writing = true })

-- The callback of `async_write` for the write that the socket has had longest.
unfoldable pub on_write_end : Bool → SocketWriter → SocketWriter
on_write_end error s = elim s.in_flight [
  | [] ↦ s
  | p ∷ ps ↦
      let taken : SocketWriter = record s { in_flight = ps; ended = s.ended ++ (p ∷ []) } in
      if error
      then record taken { is_writing = false; errors = s.errors + 1 }
      else start_write_one_packet taken
]

pub data WriterEvent : Type 0 where
  write : Bytes → WriterEvent
  ends : Bool → WriterEvent

unfoldable pub writer_step : WriterEvent → SocketWriter → SocketWriter
writer_step (write p) s = start_write_socket p s
writer_step (ends error) s = on_write_end error s

unfoldable pub writer_run : List WriterEvent → SocketWriter → SocketWriter
writer_run [] s = s
writer_run (e ∷ es) s = writer_run es (writer_step e s)
