-- ===== src/Proxy/Topics/Dispatch.antt =====
-- `start_read_header`, `start_read_body`, `start_trigger` and `start_add_worker` of `tcp_connection` in
-- proxy/server.hpp: what a client's packet starts, and whether the connection reads on.
use slsfs.Prelude.{◌+◌, ℕ, ◌==◌, Bool, Option, if◌then◌else◌, false, true, none, some, []}
use slsfs.Bytes.{Bytes}
use slsfs.Launcher.Direct.{Direct, start_trigger_post}
use slsfs.Launcher.Jobs.{add_worker}
use slsfs.Launcher.Pool.{FileToWorker, Launcher}
use slsfs.Launcher.Socket.{is_msg}
use slsfs.Proxy.Header.{PacketHeader}
use slsfs.Proxy.Topics.{ProxyServer, store_packet, write_on, start_store, start_load}

pub data ClientAction : Type 0 where
  nothing : ClientAction
  stores : PacketHeader → Bytes → ClientAction
  loads : PacketHeader → ClientAction
  replies : PacketHeader → ClientAction
  joins : Bytes → ClientAction
  triggers : PacketHeader → Bytes → ClientAction

-- The callback of a body, which may not come.
unfoldable pub with_body : Option Bytes → (Bytes → ClientAction × Bool) → ClientAction × Bool
with_body none next = (ClientAction.nothing, false)
with_body (some body) next = next body

-- The switch of `start_read_header`, with the header, which may not come, and what body follows.
unfoldable pub read_client : Option PacketHeader → Option Bytes → ClientAction × Bool
read_client none body = (ClientAction.nothing, false)
read_client (some h) body =
    if h.type == 1
    then with_body body (λ b. (ClientAction.stores h b, true))
    else if h.type == 2
    then (ClientAction.loads h, true)
    else if h.type == 3
    then (ClientAction.replies (record h { type = 3 }), true)
    else if h.type == 8
    then with_body body (λ b. (ClientAction.joins b, false))
    else if h.type == 14
    then with_body body (λ b. (ClientAction.triggers h b, true))
    else if is_msg h.type
    then (ClientAction.replies (record h { type = 0 }), true)
    else (ClientAction.nothing, false)

-- What the action of the connection `c` does to the proxy; `id` numbers the job that a trigger makes.
-- `none` is a policy that does not return.
unfoldable pub serve_client :
    Bool
    → FileToWorker
    → ℕ
    → ℕ
    → ClientAction
    → ProxyServer × Launcher
    → Option (ProxyServer × Launcher × Option Direct)
serve_client direct policy id c ClientAction.nothing (s, l) = some (s, l, none)
serve_client direct policy id c (ClientAction.stores h body) (s, l) =
    some (start_store c h body s, l, none)
serve_client direct policy id c (ClientAction.loads h) (s, l) = some (start_load c h s, l, none)
serve_client direct policy id c (ClientAction.replies h) (s, l) =
    let memory = store_packet s.fresh (h, []) s.memory in
    some (
      record s {
        memory = memory;
        writers = write_on memory s.fresh s.writers c;
        fresh = s.fresh + 1;
      },
      l,
      none,
    )
serve_client direct policy id c (ClientAction.joins worker_info) (s, l) =
    some (s, add_worker worker_info l, none)
serve_client direct policy id c (ClientAction.triggers h body) (s, l) =
    elim (start_trigger_post direct policy id h l) [ none ↦ none | some (l', d) ↦ some (s, l', d) ]
