-- ===== src/Tests/Proxy.antt =====
-- The cache's and the launcher's theorems at small inputs.
use slsfs.Launcher.Launch.Delta.{delta_reaches_limit, starting, outstanding}
use slsfs.Launcher.Assign.{Worker}
use slsfs.Cache.Blocks.Straddle.{find_block-emplace_block}
use slsfs.Cache.Lru.Set.{set_lem, IsSized, fitting}
use slsfs.Launcher.Launch.{get_ideal_worker_count_delta, WorkerLaunch}
use slsfs.Cache.Table.{emplace_block, find_block}
use slsfs.Tests.{uuid_a}
use slsfs.Prelude.{◌⊎◌, ◌⊎◌, ◌+◌, ◌+◌, ◌≤◌, ◌≤◌, arith, ◌-◌, ◌≡◌, Bool, refl, some, ◌∷◌, [], ℕ}
use slsfs.Cache.Lru.{erase_node, set, Cache, Entry}

abbrev entry_a : ℕ → ℕ → Entry
entry_a id size = record { file_key = uuid_a; block_id = id; data_size = size }

-- Room for 10 bytes, 8 of them taken.
abbrev cache_a : Cache
cache_a = record {
  nodes = entry_a 1 3 ∷ entry_a 2 5 ∷ [];
  cur_size = 8;
  cap = 10;
  evictions = 0;
  files = [];
}

set_example :
    (c : Cache) × (set (entry_a 3 4) cache_a ≡ some c)
    × (c.nodes ≡ entry_a 3 4 ∷ fitting (10 - 4) (erase_node (entry_a 3 4) cache_a.nodes))
    × IsSized c
    × (c.cap ≡ 10)
set_example = set_lem (entry_a 3 4) cache_a (refl, omega arith) (omega arith) (omega arith)

find_block-emplace_block_example :
    find_block 3 (emplace_block 3 (9 ∷ []) ((3, 7 ∷ []) ∷ [])) ≡ some (7 ∷ [])
unfolding find_block
find_block-emplace_block_example =
    find_block-emplace_block 3 (9 ∷ []) (7 ∷ []) ((3, 7 ∷ []) ∷ []) refl

abbrev launch_a : WorkerLaunch
launch_a = record {
  max_outstanding = 3;
  started = 1;
  registered = 0;
  starter = 5;
  default_pool_value = 5;
}

abbrev worker_a : ℕ → Bool → ℕ → Worker
worker_a id valid jobs = record { worker_id = id; is_valid = valid; pending_jobs = jobs }

delta_reaches_limit_example :
    let after : WorkerLaunch = starting (get_ideal_worker_count_delta 5 1 launch_a) launch_a in
    (outstanding after ≤ 3)
    × (1 + outstanding after ≤ 5)
    × ((outstanding after ≡ 3) ⊎ (1 + outstanding after ≡ 5))
delta_reaches_limit_example =
    delta_reaches_limit 5 1 launch_a (omega arith) (omega arith) (omega arith)
