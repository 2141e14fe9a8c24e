-- ===== src/DataFunction/Listen.antt =====
-- The connection of `proxy_command` to its proxy: the packets that it reads, the strand of each file, the
-- timer, and the packets by which it registers and deregisters. The time is in milliseconds. A read of the
-- socket that fails ends the connection and changes nothing more.
use slsfs.Prelude.{
  length, ◌==◌, ◌||◌, ◌&&◌, ◌++◌, ltb, ◌==◌, ◌||◌, ◌&&◌, ◌++◌, ◌+◌, ℕ, Bool, ◌+◌, Option, List,
  ◌>>=◌, if◌then◌else◌, false, none, some, ◌∷◌, [],
}
use slsfs.Bytes.{Bytes, load, ntoh}
use slsfs.Cache.Table.{same_bytes}
use slsfs.Cache.Handover.{BlockRead, get_tables, build_cache, on_block_read}
use slsfs.Launcher.Pool.{Endpoint}
use slsfs.Proxy.Header.{PacketHeader}
use slsfs.Proxy.Ring.{read_endpoint, endpoint_bytes}
use slsfs.Proxy.Request.{bytes_at}
use slsfs.DataFunction.Command.{Settings, CommandPacket, ProxyCommand, run_job, write_packet}

-- `queue_map_`: a new strand is made for a file that has none.
unfoldable pub enqueue :
    Bytes → CommandPacket → List (Bytes × List CommandPacket) → List (Bytes × List CommandPacket)
enqueue key p [] = (key, p ∷ []) ∷ []
enqueue key p ((k, ps) ∷ queues) =
    if same_bytes key k then (k, ps ++ (p ∷ [])) ∷ queues else (k, ps) ∷ enqueue key p queues

-- The call of a strand that is run next.
unfoldable pub dequeue :
    Bytes
    → List (Bytes × List CommandPacket)
    → Option (CommandPacket × List (Bytes × List CommandPacket))
dequeue key [] = none
dequeue key ((k, ps) ∷ queues) =
    let rest = dequeue key queues in
    if same_bytes key k
    then elim ps [ [] ↦ none | p ∷ ps ↦ some (p, (k, ps) ∷ queues) ]
    else (rest >>= λ r. some (r.0, (k, ps) ∷ r.1))

unfoldable pub start_job : CommandPacket → ProxyCommand → ProxyCommand
start_job p s = record s { queues = enqueue p.header.key p s.queues }

unfoldable pub run_strand :
    Settings → (CommandPacket → Bytes) → Bytes → ProxyCommand → Option ProxyCommand
run_strand settings perform key s = elim (dequeue key s.queues) [
  | none ↦ some s
  | some (p, queues) ↦ run_job settings perform p (record s { queues = queues })
]

unfoldable pub timer_reset : ProxyCommand → ProxyCommand
timer_reset s = record s { deadline = some (s.last_update + s.waittime) }

unfoldable pub same_endpoint : Endpoint → Endpoint → Bool
same_endpoint a b = same_bytes a.host b.host && a.port == b.port

unfoldable pub has_proxy : Endpoint → List Endpoint → Bool
has_proxy e [] = false
has_proxy e (p ∷ ps) = same_endpoint e p || has_proxy e ps

-- `proxyjoin`: a connection to a proxy that is not there yet, with a `proxy_command` of its own.
unfoldable pub join_proxy : Endpoint → ProxyCommand → ProxyCommand
join_proxy e s = if has_proxy e s.proxies then s else record s { proxies = e ∷ s.proxies }

-- `cache_transfer`
unfoldable pub take_tables : Settings → Bytes → ProxyCommand → Option ProxyCommand
take_tables settings buf s =
    if settings.takes_tables
    then (build_cache buf s.cache >>= λ r.
        some (record s { cache = r.0; fetching = s.fetching ++ r.1 }))
    else some s

-- The switch of `start_listen_commands_body`.
unfoldable pub dispatch : Settings → CommandPacket → ProxyCommand → Option ProxyCommand
dispatch settings p s =
    if p.header.type == 4
    then (if ltb (length p.buf) 6 then none else some (join_proxy (read_endpoint p.buf) s))
    else if p.header.type == 5
    then (if ltb (length p.buf) 4
        then none
        else some (record s { waittime = ntoh 4 (load (bytes_at 0 4 p.buf)) }))
    else if p.header.type == 6
    then take_tables settings p.buf s
    else some (start_job p s)

-- What follows the switch: the acknowledgement, and the timer.
unfoldable pub acknowledge : ℕ → CommandPacket → ProxyCommand → ProxyCommand
acknowledge now p s =
    let s = write_packet 3 p [] s in
    timer_reset (if p.header.type == 5 then s else record s { last_update = now })

-- The callbacks of `start_listen_commands` and `start_listen_commands_body` for one packet.
unfoldable pub on_command : Settings → ℕ → CommandPacket → ProxyCommand → Option ProxyCommand
on_command settings now p s =
    let cancelled : ProxyCommand = if p.header.type == 5 then s else record s { deadline = none } in
    dispatch settings p cancelled >>= λ s. some (acknowledge now p s)

-- The callback of a read that `build_cache` started.
unfoldable pub on_fetched : BlockRead → Bytes → ProxyCommand → ProxyCommand
on_fetched r buf s = record s { cache = on_block_read r buf s.cache }

-- `close`; a new packet's header has a type, and what else its memory holds.
unfoldable pub close_command : PacketHeader → ProxyCommand → ProxyCommand
close_command header s =
    write_packet 9 (record { header = header; buf = [] }) (get_tables s.cache_hits s.cache) s

-- The callback of the timer, which runs if the timer was not cancelled.
unfoldable pub on_deadline : ℕ → PacketHeader → ProxyCommand → ProxyCommand
on_deadline now header s = elim s.deadline [
  | none ↦ s
  | some at ↦ if ltb now at then s else close_command header s
]

-- `start_connect`: the address that `get_host` finds and the port of the server for clients.
unfoldable pub start_connect : PacketHeader → Endpoint → ProxyCommand → ProxyCommand
start_connect header server s =
    timer_reset (write_packet 8 (record { header = header; buf = [] }) (endpoint_bytes server) s)
