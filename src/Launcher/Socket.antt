-- ===== src/Launcher/Socket.antt =====
-- `start_read_header` and `start_read_body` of proxy/worker.hpp: what a read of a worker's socket makes
-- happen, and whether the socket is read on.
use slsfs.Prelude.{
  ◌&&◌, ◌&&◌, ◌||◌, ◌||◌, ◌==◌, ◌==◌, leb, List, Option, Bool, ℕ, if◌then◌else◌, false, true, none,
  some, ◌∷◌, [],
}
use slsfs.Bytes.{Bytes}
use slsfs.Launcher.Jobs.{Event}
use slsfs.Proxy.Header.{PacketHeader}

-- The values of `msg_t`.
unfoldable pub is_msg : ℕ → Bool
is_msg t = leb t 6 || (leb 8 t && leb t 11) || t == 14 || t == 15

-- The callback of `start_read_body`, with the body or an error.
unfoldable pub read_body : ℕ → PacketHeader → Option Bytes → Option Event × Bool
read_body w h none = (none, false)
read_body w h (some body) =
    if h.type == 9
    then (some (Event.closed w (some body)), false)
    else (some (Event.responded w h body), true)

-- The callback of `start_read_header`, with the header or an error, and then that of the body. A type that
-- is not in `msg_t` falls through the switch.
unfoldable pub read_packet : ℕ → Option PacketHeader → Option Bytes → Option Event × Bool
read_packet w none body = (some (Event.closed w none), false)
read_packet w (some h) body =
    if h.type == 9 || h.type == 11
    then read_body w h body
    else if h.type == 3
    then (some (Event.acked w h), true)
    else (none, is_msg h.type)

-- What a socket makes happen, one packet after the other.
unfoldable pub read_socket : ℕ → List (Option PacketHeader × Option Bytes) → List Event
read_socket w [] = []
read_socket w ((h, body) ∷ ps) =
    let (event, go_on) = read_packet w h body in
    let rest = if go_on then read_socket w ps else [] in
    elim event [ none ↦ rest | some e ↦ e ∷ rest ]
