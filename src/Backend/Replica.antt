-- ===== src/Backend/Replica.antt =====
-- `select_replica`, `init` and `start_replication` of storage-conf-ssbd-backend.hpp: which block
-- servers a block goes to, and what the further copies are sent.
pub mod Copies
use slsfs.Bytes.{Bytes}
use slsfs.Prelude.{
  ◌^◌, ltb, ◌-◌, ◌+◌, ◌*◌, ◌++◌, ◌≤◌, Option, List, ◌>>=◌, if◌then◌else◌, refl, suc, zero, inr, inl,
  false, true, none, some, ◌∷◌, [], ℕ,
}

-- `std::mt19937` and `std::uniform_int_distribution`, which are the standard library's. `uniform n`
-- draws from 0 up to `n`.
pub record Engine : Type 1 where
  pub State : Type 0
  pub seed : Bytes → State
  pub discard : ℕ → State → State
  pub uniform : ℕ → State → ℕ
  pub uniform-le : (n : ℕ) (s : State) → uniform n s ≤ n

-- `none` is a signed overflow in `partition * (partition * replication_index)`.
unfoldable pub select_replica : Engine → ℕ → Bytes → ℕ → ℕ → Option ℕ
select_replica e replication_start_index uuid partition replication_index =
    let skip = partition * (partition * replication_index) in
    if ltb skip (2 ^ 31)
    then some (e.uniform (replication_start_index - 1) (e.discard skip (e.seed uuid)))
    else none

-- `backend_list_`, which `init` fills with the hosts once for the normal operation and once more for
-- the copies, and `replication_start_index_`.
unfoldable pub backend_list {ℓ} : {A : Type ℓ} → List A → List A
backend_list hosts = hosts ++ hosts

-- Where copy `replica_index` of the block goes: an index into `backend_list_`.
unfoldable pub copy_index : Engine → ℕ → Bytes → ℕ → ℕ → Option ℕ
copy_index e replication_start_index uuid partition replica_index = do
  i ← select_replica e replication_start_index uuid partition replica_index
  some (replication_start_index + i)

-- The turns of the inner loop, `for (replica_index = 1; replica_index < replication_size_;)`.
unfoldable pub copies_from : Engine → ℕ → Bytes → ℕ → ℕ → ℕ → Option (List ℕ)
copies_from e start uuid partition zero replica_index = some []
copies_from e start uuid partition (suc left) replica_index = do
  i ← copy_index e start uuid partition replica_index
  rest ← copies_from e start uuid partition left (replica_index + 1)
  some (i ∷ rest)

unfoldable pub copies : Engine → ℕ → Bytes → ℕ → ℕ → Option (List ℕ)
copies e replication_size uuid partition start =
    copies_from e start uuid partition (replication_size - 1) 1
