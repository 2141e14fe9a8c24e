-- ===== src/Tests/Ring.antt =====
-- Two proxies.
use slsfs.Proxy.Ring.Order.{In}
use slsfs.Cache.Table.{same_bytes}
use slsfs.Prelude.{inr, inl, ◌+◌, ◌+◌, ◌⊎◌, ◌⊎◌, ◌≡◌, arith, ◌≡◌, refl, some, ◌∷◌, []}
use slsfs.Proxy.Ring.{
  key_lt, upper_bound, next_proxy, proxy_list, reconfigure, join_message, endpoint_bytes, ProxyJoin,
  start_check_alive,
}
use slsfs.Proxy.Ring.Owner.{proxy_of_file, join_moves_to_new, Owns}
use slsfs.Proxy.Ring.Watch.{reconfigure_reaches_owner, live_proxy_removed, LeadsTo}
use slsfs.Launcher.Pool.{Endpoint}
use slsfs.Bytes.{Bytes, store, hton}

abbrev near : Bytes
near = 1 ∷ []

abbrev far : Bytes
far = 9 ∷ []

abbrev endpoint_of : Bytes → Endpoint
endpoint_of p = record { host = 10 ∷ 0 ∷ 0 ∷ 1 ∷ []; port = 12000 }

proxy_of_file_example :
    (o : Bytes) × (next_proxy (proxy_list (λ b. b) (far ∷ near ∷ [])) (5 ∷ []) ≡ some o)
    × Owns (far ∷ near ∷ []) (5 ∷ []) o
proxy_of_file_example = proxy_of_file (λ b. b) far (near ∷ []) (5 ∷ [])

abbrev mid : Bytes
mid = 6 ∷ []

only_mid : (x : Bytes) → In x (mid ∷ far ∷ near ∷ []) → (x ≡ mid) ⊎ In x (near ∷ far ∷ [])
only_mid x (inl e) = inl e
only_mid x (inr (inl e)) = inr (inr (inl e))
only_mid x (inr (inr (inl e))) = inr (inl e)
only_mid x (inr (inr (inr e))) = absurd e

all_there : (x : Bytes) → In x (near ∷ far ∷ []) → In x (mid ∷ far ∷ near ∷ [])
all_there x (inl e) = inr (inr (inl e))
all_there x (inr (inl e)) = inr (inl e)
all_there x (inr (inr e)) = absurd e

join_moves_to_new_example :
    (next_proxy (proxy_list (λ b. b) (mid ∷ far ∷ near ∷ [])) (5 ∷ [])
      ≡ next_proxy (proxy_list (λ b. b) (near ∷ far ∷ [])) (5 ∷ []))
    ⊎ (next_proxy (proxy_list (λ b. b) (mid ∷ far ∷ near ∷ [])) (5 ∷ []) ≡ some mid)
join_moves_to_new_example =
    join_moves_to_new (λ b. b) mid near mid (far ∷ []) (far ∷ near ∷ []) (5 ∷ []) only_mid all_there

abbrev join_far : ProxyJoin
join_far = record { worker = 4; file = 5 ∷ []; payload = 10 ∷ 0 ∷ 0 ∷ 1 ∷ 46 ∷ 224 ∷ [] }

reconfigure_reaches_owner_example : LeadsTo near endpoint_of (near ∷ far ∷ []) join_far × Unit {0}
unfolding reconfigure next_proxy upper_bound key_lt same_bytes join_message endpoint_bytes store
    hton
reconfigure_reaches_owner_example =
    reconfigure_reaches_owner near endpoint_of (near ∷ far ∷ []) ((5 ∷ [], 4) ∷ []) (join_far ∷ [])
      (λ p. record { host_size = refl; port_fits = omega arith }) refl

live_proxy_removed_example :
    start_check_alive near
      (near ∷ far ∷ [])
      (λ p. 1000)
      (1000 + 3000000000)
      (record { local_now = 500 + 3000000000; modified_time = 500 })
    ≡ some (some far)
unfolding next_proxy upper_bound key_lt same_bytes
live_proxy_removed_example =
    live_proxy_removed near far (near ∷ far ∷ []) (λ p. 1000) 500 1000 3000000000 refl refl
      (omega arith) (omega arith)
