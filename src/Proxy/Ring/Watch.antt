-- ===== src/Proxy/Ring/Watch.antt =====
-- The messages that send workers to other proxies, and the clocks by which a proxy is thought dead.
use slsfs.Prelude.{
  Bool-cases, ap₂, ◌∙◌, ◌∙◌, ap, take_all, drop-append, Option-cases, drop, arith, some_inj, sym,
  ◌+◌, subst, take-append, ◌≤◌, ◌^◌, ◌≤◌, All, ◌++◌, ◌^◌, ◌<◌, ℕ, take, ◌<◌, ◌≡◌, List, ◌≡◌, length,
  ◌>>=◌, if◌then◌else◌, refl, inr, inl, false, true, none, some, ◌∷◌, [],
}
use slsfs.Bytes.{Bytes, store, load, hton, ntoh}
use slsfs.Bytes.Laws.{ntoh-load-store, length-store}
use slsfs.Cache.Table.{same_bytes}
use slsfs.Launcher.Pool.{Endpoint}
use slsfs.Proxy.Request.{bytes_at}
use slsfs.Proxy.Ring.{
  next_proxy, endpoint_bytes, read_endpoint, ProxyJoin, join_message, reconfigure, is_stale,
  start_check_alive,
}

pub record IsEndpoint (e : Endpoint) : Type 0 where
  pub host_size : length e.host ≡ 4
  pub port_fits : e.port < 2 ^ 16

pub read_endpoint-bytes : (e : Endpoint) → IsEndpoint e → read_endpoint (endpoint_bytes e) ≡ e
unfolding read_endpoint endpoint_bytes bytes_at
read_endpoint-bytes e v =
    let p = store 2 (hton 2 e.port) in
    let h : take 4 (e.host ++ p) ≡ e.host = take-append e.host p 4 (sym v.host_size) in
    let d : drop 4 (e.host ++ p) ≡ p = drop-append e.host p 4 (sym v.host_size) in
    let whole : take 2 p ≡ p = take_all p 2 (omega (arith, length-store 2 (hton 2 e.port))) in
    let port : ntoh 2 (load (take 2 (drop 4 (e.host ++ p)))) ≡ e.port =
      ap (λ l. ntoh 2 (load (take 2 l))) d
      ∙ ap (λ l. ntoh 2 (load l)) whole
      ∙ ntoh-load-store 2 e.port v.port_fits in
    ap₂ (λ (h : Bytes) (q : ℕ). record { host = h; port = q }) h port

-- What a message says: another proxy has the file, and the data function reads where it is.
abbrev pub LeadsTo : Bytes → (Bytes → Endpoint) → List Bytes → ProxyJoin → Type 0
LeadsTo id get_uuid ps m =
    (p : Bytes) × (next_proxy ps m.file ≡ some p)
    × (same_bytes p id ≡ false)
    × (read_endpoint m.payload ≡ get_uuid p)

-- Every message that a proxy sends when the list of proxies changes is for a file that another proxy has
-- now, and the data function that gets it reads the endpoint of that proxy, where endpoints have four
-- bytes and a port of 16 bits.
pub reconfigure_reaches_owner :
    (id : Bytes) (get_uuid : Bytes → Endpoint) (ps : List Bytes) (bindings : List (Bytes × ℕ))
    (ms : List ProxyJoin)
    → ((p : Bytes) → IsEndpoint (get_uuid p))
    → reconfigure id get_uuid ps bindings ≡ some ms
    → All (LeadsTo id get_uuid ps) ms
unfolding reconfigure join_message
reconfigure_reaches_owner id get_uuid ps [] ms v e =
    subst (All (LeadsTo id get_uuid ps)) (some_inj e) tt
reconfigure_reaches_owner id get_uuid ps ((key, w) ∷ bindings) ms v e =
    elim (Option-cases (next_proxy ps key)) [
      | inl empty ↦ let bad : none ≡ some ms = rw (empty, reconfigure) at e in absurd (cc)
      | inr (p, q) ↦ elim (Option-cases (reconfigure id get_uuid ps bindings)) [
        | inl stuck ↦ let bad : none ≡ some ms = rw stuck at (first p q) in absurd (cc)
        | inr (rest, r) ↦
            let ih = reconfigure_reaches_owner id get_uuid ps bindings rest v r in
            let m = join_message key w (get_uuid p) in
            let made : (if same_bytes p id then rest else m ∷ rest) ≡ ms =
              some_inj (rw r at (first p q)) in
            elim (Bool-cases (same_bytes p id)) [
              | inl mine ↦ subst (All (LeadsTo id get_uuid ps)) (rw mine at made) ih
              | inr other ↦
                  subst (All (LeadsTo id get_uuid ps)) (rw other at made)
                    ((p, q, other, read_endpoint-bytes (get_uuid p) (v p)), ih)
            ]
      ]
    ]
  where
    first :
        (p : Bytes)
        → next_proxy ps key ≡ some p
        → (reconfigure id get_uuid ps bindings >>= λ rest.
            some (if same_bytes p id then rest else join_message key w (get_uuid p) ∷ rest))
          ≡ some ms
    first p q = rw (q, reconfigure) at e

-- A local clock that is ahead of ZooKeeper's by `d` counts the offset twice where it should take it off:
-- with more than two seconds, a proxy is taken for dead and removed however recent its heartbeat is.
pub live_proxy_removed :
    (id p : Bytes) (ps : List Bytes) (modified : Bytes → ℕ) (set_at now d : ℕ)
    → next_proxy ps id ≡ some p
    → same_bytes p id ≡ false
    → modified p ≤ now
    → 2000000000 < d
    → start_check_alive id ps modified
        (now + d)
        (record { local_now = set_at + d; modified_time = set_at })
      ≡ some (some p)
unfolding start_check_alive is_stale
live_proxy_removed id p ps modified set_at now d next other recent ahead =
    let stale : is_stale (now + d) (record { local_now = set_at + d; modified_time = set_at })
          (modified p)
        ≡ true =
      ground arith in
    rw (next, start_check_alive) (rw other (rw stale refl))
