-- ===== src/Cache/Blocks.antt =====
-- `get_block_ids`, `read_from_cache` and `write_to_cache` of caching.hpp. `none` is undefined
-- behaviour of `set` or of a copy, or a loop that does not end. `cache_hits_`, which only `get_tables` reads, is an
-- argument there; `block_counter_` is a count that no operation reads, and is left out.
pub mod Straddle
pub mod Evicted
pub mod Hit
use slsfs.Bytes.{Bytes}
use slsfs.Prelude.{
  ◌*◌, ◌-◌, ◌++◌, ◌==◌, ◌/◌, ◌^◌, ◌%◌, drop, length, ltb, ◌+◌, take, List, min, Bool, Option, ◌>>=◌,
  if◌then◌else◌, refl, suc, zero, inr, inl, false, true, none, some, ◌∷◌, [], ℕ,
}
use slsfs.Cache.Lru.{set, Cache, Entry}
use slsfs.Cache.Table.{BlockMap, find_file, find_block, emplace_block, update_file, emplace_file}

abbrev pub blocksize : ℕ
blocksize = 4096

-- A read or write request: the file, `position` and `size`.
pub record Request : Type 0 where
  pub uuid : Bytes
  pub position : ℕ
  pub size : ℕ

-- `for (currentpos = realpos; currentpos < endpos; currentpos += blocksize())`
unfoldable pub block_ids_from : ℕ → ℕ → ℕ → Option (List ℕ)
block_ids_from zero currentpos endpos = none
block_ids_from (suc fuel) currentpos endpos = elim (ltb currentpos endpos) [
  | false ↦ some []
  | true ↦ do
    ids ← block_ids_from fuel ((currentpos + blocksize) % 2 ^ 32) endpos
    some (currentpos / blocksize ∷ ids)
]

-- The fuel is one more than the bytes of the request.
unfoldable pub get_block_ids : Request → Option (List ℕ)
get_block_ids r =
    let endpos = (r.position + r.size) % 2 ^ 32 in
    if r.size == 0 then some [] else block_ids_from (r.size + 1) r.position endpos

-- The loop over the blocks, with what was collected so far. A block that is missing ends it; what the
-- blocks before it did to the list stays.
unfoldable pub collect_blocks :
    Bool → Bytes → List ℕ → BlockMap → Bytes → Cache → Option (Cache × Option Bytes)
collect_blocks fifo uuid [] blocks to_return c = some (c, some to_return)
collect_blocks fifo uuid (id ∷ ids) blocks to_return c = elim (find_block id blocks) [
  | none ↦ some (c, none)
  | some buf ↦ do
    let used : Entry = record { file_key = uuid; block_id = id; data_size = length buf % 2 ^ 32 }
    c ← (if fifo then some c else set used c)
    collect_blocks fifo uuid ids blocks (to_return ++ buf) c
]

-- The lock of the file's entry is held meanwhile, which this leaves out: where `set` drops a block of the
-- same file, the code waits for itself and does not return.
unfoldable pub read_from_cache : Bool → Request → Cache → Option (Cache × Option Bytes)
read_from_cache fifo r c = elim (find_file r.uuid c.files) [
  | none ↦ some (c, none)
  | some blocks ↦ do ids ← get_block_ids r; collect_blocks fifo r.uuid ids blocks [] c
]

-- `copy_size`, in `std::uint32_t`, and the bytes of the request that the block gets.
unfoldable pub copy_size : Request → ℕ → ℕ
copy_size r id =
    min blocksize ((r.size + 2 ^ 32 - (id - r.position / blocksize) * blocksize % 2 ^ 32) % 2 ^ 32)

-- The copy reads past the end of the data if they are shorter than the request says: `none`.
unfoldable pub block_data : Request → Bytes → ℕ → Option Bytes
block_data r xs id =
    let from = drop ((id - r.position / blocksize) * blocksize) xs in
    if ltb (length from) (copy_size r id) then none else some (take (copy_size r id) from)

unfoldable pub entry_of : Request → ℕ → Entry
entry_of r id = record { file_key = r.uuid; block_id = id; data_size = copy_size r id }

-- The file is cached: each block is put into its map, unless the eviction has just dropped the file.
unfoldable pub write_cached : Request → Bytes → List ℕ → Cache → Option Cache
write_cached r xs [] c = some c
write_cached r xs (id ∷ ids) c = do
  buf ← block_data r xs id
  c ← set (entry_of r id) c
  let emplaced : Cache = elim (find_file r.uuid c.files) [
    | none ↦ c
    | some blocks ↦ record c { files = update_file r.uuid (emplace_block id buf blocks) c.files }
  ]
  write_cached r xs ids emplaced

-- The file is not cached: its blocks are gathered beside the map and put into it at the end.
unfoldable pub write_new : Request → Bytes → List ℕ → BlockMap → Cache → Option Cache
write_new r xs [] blocks c = some (record c { files = emplace_file r.uuid blocks c.files })
write_new r xs (id ∷ ids) blocks c = do
  buf ← block_data r xs id
  c ← set (entry_of r id) c
  write_new r xs ids (emplace_block id buf blocks) c

unfoldable pub write_to_cache : Request → Bytes → Cache → Option Cache
write_to_cache r xs c = do
  ids ← get_block_ids r
  elim (find_file r.uuid c.files) [
    | none ↦ write_new r xs ids [] c
    | some blocks ↦ write_cached r xs ids c
  ]
