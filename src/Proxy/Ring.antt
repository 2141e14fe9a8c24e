-- ===== src/Proxy/Ring.antt =====
-- The ring of proxies of proxy/zookeeper.hpp and `reconfigure` of proxy/launcher.hpp: which proxy has a
-- file, the messages that send a worker there, and the watch of a proxy over the next one. The names below
-- /slsfs/proxy and their times are ZooKeeper's; `decode` is `uuid::decode_base64`. `none` is the undefined
-- behaviour of an empty list of proxies.
pub mod Order
pub mod Owner
pub mod Watch
use slsfs.Prelude.{
  ◌&&◌, ◌&&◌, ◌==◌, ◌==◌, ◌+◌, ◌||◌, ◌+◌, ◌||◌, ◌-◌, ◌-◌, map, Option, ltb, ◌++◌, ℕ, ◌++◌, List,
  Bool, ◌>>=◌, if◌then◌else◌, refl, suc, zero, inr, inl, false, true, none, some, ◌∷◌, [],
}
use slsfs.Bytes.{Bytes, store, load, hton, ntoh}
use slsfs.Cache.Table.{same_bytes}
use slsfs.Launcher.Pool.{Endpoint}
use slsfs.Proxy.Request.{bytes_at}

-- `operator<` of two `std::array`s of bytes.
unfoldable pub key_lt : Bytes → Bytes → Bool
key_lt xs [] = false
key_lt [] (y ∷ ys) = true
key_lt (x ∷ xs) (y ∷ ys) = ltb x y || (x == y && key_lt xs ys)

unfoldable pub insert_sorted : Bytes → List Bytes → List Bytes
insert_sorted p [] = p ∷ []
insert_sorted p (x ∷ xs) = if key_lt p x then p ∷ x ∷ xs else x ∷ insert_sorted p xs

-- `std::sort`
unfoldable pub sort : List Bytes → List Bytes
sort [] = []
sort (p ∷ ps) = insert_sorted p (sort ps)

-- `std::upper_bound`, with `none` for the end.
unfoldable pub upper_bound : List Bytes → Bytes → Option Bytes
upper_bound [] key = none
upper_bound (p ∷ ps) key = if key_lt key p then some p else upper_bound ps key

unfoldable pub first : List Bytes → Option Bytes
first [] = none
first (p ∷ ps) = some p

-- `if (it == end) it = begin;`, and `*it`.
unfoldable pub next_proxy : List Bytes → Bytes → Option Bytes
next_proxy ps key = elim (upper_bound ps key) [ none ↦ first ps | some p ↦ some p ]

-- The list of proxies that `start_reconfigure` and `start_check_alive` make of the names.
unfoldable pub proxy_list : (Bytes → Bytes) → List Bytes → List Bytes
proxy_list decode children = sort (map decode children)

-- The data of a `proxyjoin` packet.
unfoldable pub endpoint_bytes : Endpoint → Bytes
endpoint_bytes e = e.host ++ store 2 (hton 2 e.port)

-- How a data function reads it.
unfoldable pub read_endpoint : Bytes → Endpoint
read_endpoint buf = record { host = bytes_at 0 4 buf; port = ntoh 2 (load (bytes_at 4 2 buf)) }

-- A message of `reconfigure`: the worker, the file, and the data.
pub record ProxyJoin : Type 0 where
  pub worker : ℕ
  pub file : Bytes
  pub payload : Bytes

-- `start_send_reconfigure_message`
unfoldable pub join_message : Bytes → ℕ → Endpoint → ProxyJoin
join_message key w new_proxy = record { worker = w; file = key; payload = endpoint_bytes new_proxy }

-- `reconfigure`, with the endpoint that `get_uuid` finds for a proxy.
unfoldable pub reconfigure :
    Bytes → (Bytes → Endpoint) → List Bytes → List (Bytes × ℕ) → Option (List ProxyJoin)
reconfigure id get_uuid ps [] = some []
reconfigure id get_uuid ps ((key, w) ∷ bindings) = do
  p ← next_proxy ps key
  rest ← reconfigure id get_uuid ps bindings
  some (if same_bytes p id then rest else join_message key w (get_uuid p) ∷ rest)

-- `local_zk_diff_`, which may be negative, by its two terms: the local time, and the time that ZooKeeper
-- gave a node just then.
pub record ZkDiff : Type 0 where
  pub local_now : ℕ
  pub modified_time : ℕ

-- `now + local_zk_diff_ - modified_time > 4s`, in nanoseconds.
unfoldable pub is_stale : ℕ → ZkDiff → ℕ → Bool
is_stale now diff modified =
    ltb (modified + (diff.modified_time + 4000000000)) (now + diff.local_now)

-- `start_check_alive`, once the difference is known: the proxy that is taken out of the list, if any;
-- `none` outside is an empty list.
unfoldable pub start_check_alive :
    Bytes → List Bytes → (Bytes → ℕ) → ℕ → ZkDiff → Option (Option Bytes)
start_check_alive id ps modified now diff = do
  p ← next_proxy ps id
  some (if same_bytes p id then none else (if is_stale now diff (modified p) then some p else none))
