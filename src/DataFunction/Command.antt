-- ===== src/DataFunction/Command.antt =====
-- `proxy_command` of functions/datafunction/proxy-command.hpp. A callback is a function; the callbacks
-- come in an order that is given. `now` is the clock in milliseconds, and the answers of the storage
-- backend are arguments. `none` is undefined behaviour: a packet that is shorter than what is read of it,
-- or that of the cache.
use slsfs.Prelude.{
  take, length, ◌+◌, ◌==◌, ltb, ◌+◌, ◌==◌, List, Option, ℕ, Bool, ◌>>=◌, if◌then◌else◌, none, some,
  ◌∷◌, [],
}
use slsfs.Bytes.{Bytes}
use slsfs.Cache.Lru.{Cache}
use slsfs.Cache.Blocks.{Request, read_from_cache, write_to_cache}
use slsfs.Cache.Handover.{BlockRead}
use slsfs.Launcher.Pool.{Endpoint}
use slsfs.Proxy.Header.{PacketHeader}
use slsfs.Proxy.Request.{copy_request, request_data}

pub record CommandPacket : Type 0 where
  pub header : PacketHeader
  pub buf : Bytes

-- What the constructor is given: `use_async()` of the backend, `enable_cache_`, whether the policy of the
-- cache is "FIFO", and whether it is "LRU" or "FIFO".
pub record Settings : Type 0 where
  pub use_async : Bool
  pub enable_cache : Bool
  pub fifo : Bool
  pub takes_tables : Bool

-- A call of `start_perform` or `start_perform_metadata` whose answer is to come.
pub data BackendCall : Type 0 where
  perform_file : CommandPacket → BackendCall
  perform_metadata : CommandPacket → BackendCall

-- `queues` is `queue_map_`, with the calls that wait in each strand, `deadline` the time of
-- `recv_deadline_`; `asked`, `fetching` and `sent` are the calls of the backend, the reads of
-- `build_cache` and the packets written, the last one first.
pub record ProxyCommand : Type 0 where
  pub waittime : ℕ
  pub last_update : ℕ
  pub deadline : Option ℕ
  pub queues : List (Bytes × List CommandPacket)
  pub proxies : List Endpoint
  pub cache : Cache
  pub cache_hits : ℕ
  pub asked : List BackendCall
  pub fetching : List BlockRead
  pub sent : List CommandPacket

-- How the cache reads the packet of a request.
unfoldable pub request_of : CommandPacket → Request
request_of p =
    let f = copy_request p.buf in
    record { uuid = p.header.key; position = f.position; size = f.size }

unfoldable pub is_file : CommandPacket → Bool
is_file p = (copy_request p.buf).type == 0

unfoldable pub is_write : CommandPacket → Bool
is_write p = (copy_request p.buf).operation == 0

-- `start_write` of a packet with the header of another and a type.
unfoldable pub write_packet : ℕ → CommandPacket → Bytes → ProxyCommand → ProxyCommand
write_packet type p buf s = record s {
  sent = record { header = record p.header { type = type }; buf = buf } ∷ s.sent;
}

-- The callback that `start_job` gives the backend: a `worker_response`.
unfoldable pub send_response : CommandPacket → Bytes → ProxyCommand → ProxyCommand
send_response p buf s = write_packet 11 p buf s

unfoldable pub ask : BackendCall → ProxyCommand → ProxyCommand
ask call s = record s { asked = call ∷ s.asked }

-- What `read_from_cache` does to the state.
unfoldable pub cached_file :
    Settings → CommandPacket → ProxyCommand → Option (ProxyCommand × Option Bytes)
cached_file settings p s = do
  (c, found) ← read_from_cache settings.fifo (request_of p) s.cache
  let s : ProxyCommand = record s { cache = c }
  some (elim found [
    | none ↦ (s, none)
    | some buf ↦ (record s { cache_hits = s.cache_hits + 1 }, some buf)
  ])

-- The read branch of `start_storage_perform`.
unfoldable pub read_or_ask : CommandPacket → ProxyCommand × Option Bytes → ProxyCommand
read_or_ask p (s, none) = ask (BackendCall.perform_file p) s
read_or_ask p (s, some buf) = send_response p buf s

unfoldable pub start_storage_perform : Settings → CommandPacket → ProxyCommand → Option ProxyCommand
start_storage_perform settings p s =
    if is_file p
    then (if is_write p
        then some (ask (BackendCall.perform_file p) s)
        else (cached_file settings p s >>= λ r. some (read_or_ask p r)))
    else if (copy_request p.buf).type == 1
    then some (ask (BackendCall.perform_metadata p) s)
    else some s

unfoldable pub put_in_cache : CommandPacket → Bytes → ProxyCommand → Option ProxyCommand
put_in_cache p xs s = do c ← write_to_cache (request_of p) xs s.cache; some (record s { cache = c })

-- The callback of the backend's answer.
unfoldable pub on_storage_answer :
    Settings → BackendCall → Bytes → ProxyCommand → Option ProxyCommand
on_storage_answer settings (BackendCall.perform_metadata p) buf s = some (send_response p buf s)
on_storage_answer settings (BackendCall.perform_file p) buf s =
    let s = send_response p buf s in
    if settings.enable_cache
    then put_in_cache p (if is_write p then request_data p.buf else buf) s
    else some s

-- The file branch of `storage_perform`, the backend's `perform` being an argument.
unfoldable pub read_or_perform :
    (CommandPacket → Bytes)
    → CommandPacket
    → ProxyCommand × Option Bytes
    → Option (ProxyCommand × Bytes)
read_or_perform perform p (s, some buf) = some (s, buf)
read_or_perform perform p (s, none) = do let xs = perform p; s ← put_in_cache p xs s; some (s, xs)

unfoldable pub storage_perform :
    Settings
    → (CommandPacket → Bytes)
    → CommandPacket
    → ProxyCommand
    → Option (ProxyCommand × Bytes)
storage_perform settings perform p s =
    let size = (request_of p).size in
    let xs = request_data p.buf in
    if is_file p
    then (if is_write p
        then (if ltb (length xs) size
            then none
            else (put_in_cache p (take size xs) s >>= λ s. some (s, perform p)))
        else (cached_file settings p s >>= read_or_perform perform p))
    else if (copy_request p.buf).type == 1
    then some (s, perform p)
    else some (s, [])

-- The call that `start_job` posts to the strand of the file.
unfoldable pub run_job :
    Settings → (CommandPacket → Bytes) → CommandPacket → ProxyCommand → Option ProxyCommand
run_job settings perform p s =
    if ltb (length p.buf) 12
    then none
    else if settings.use_async
    then start_storage_perform settings p s
    else (storage_perform settings perform p s >>= λ r. some (send_response p (r.1) (r.0)))
