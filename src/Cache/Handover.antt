-- ===== src/Cache/Handover.antt =====
-- `get_tables` and `build_cache` of functions/datafunction/caching.hpp: a data function that closes writes
-- down what it has cached, and a new one fetches the same. `none` is undefined behaviour: a table that is
-- cut short, or that of `set`. A byte is compared with a character as a number.
pub mod Entries
pub mod Sizes
pub mod Rebuild
use slsfs.Prelude.{
  if◌then◌else◌, refl, inr, inl, ◌^◌, ◌^◌, ◌%◌, ◌%◌, ◌==◌, ◌*◌, drop, ◌==◌, ◌*◌, Option, List, ◌++◌,
  length, ℕ, ◌>>=◌, suc, zero, false, true, none, some, ◌∷◌, [],
}
use slsfs.Bytes.{Bytes, store, load, fetch}
use slsfs.Cache.Table.{BlockMap, CachingMap, find_file, emplace_file, emplace_block, update_file}
use slsfs.Cache.Lru.{Entry, Cache, set}
use mathlib.Core.List.{reverse}

-- A block's number and size.
unfoldable pub block_bytes : ℕ → ℕ → Bytes
block_bytes id size = store 4 id ++ store 4 size

-- The loop over the blocks of a file: a comma stands between two blocks.
unfoldable pub blocks_table : BlockMap → Bytes
blocks_table [] = []
blocks_table ((id, buf) ∷ []) = block_bytes id (length buf)
blocks_table ((id, buf) ∷ b ∷ bs) = block_bytes id (length buf) ++ (b',' ∷ blocks_table (b ∷ bs))

-- The loop over the files.
unfoldable pub files_table : CachingMap → Bytes
files_table [] = []
files_table ((key, blocks) ∷ files) =
    key ++ (b':' ∷ (blocks_table blocks ++ (b' ' ∷ files_table files)))

-- The loop over the nodes, from `tail` to `head`.
unfoldable pub lru_table : List Entry → Bytes
lru_table [] = []
lru_table (e ∷ es) =
    e.file_key ++ (b'.' ∷ (block_bytes e.block_id e.data_size ++ (b' ' ∷ lru_table es)))

-- `get_tables`, with `cache_hits_`.
unfoldable pub get_tables : ℕ → Cache → Bytes
get_tables cache_hits c =
    (files_table c.files ++ lru_table (reverse c.nodes))
    ++ (store 4 cache_hits ++ store 4 c.evictions)

-- The read of a block that `start_perform` is called with; `position` is a `std::uint32_t` product.
pub record BlockRead : Type 0 where
  pub file_key : Bytes
  pub bid : ℕ
  pub position : ℕ
  pub size : ℕ

unfoldable pub block_read : Bytes → ℕ → ℕ → BlockRead
block_read key bid size = record {
  file_key = key;
  bid = bid;
  position = bid * 4096 % 2 ^ 32;
  size = size;
}

-- The number and the size of a block, read from the table.
unfoldable pub read_entry : Bytes → Option (ℕ × ℕ × Bytes)
read_entry buf = do
  (id, buf) ← fetch 4 buf
  (size, buf) ← fetch 4 buf
  some (load id, load size, buf)

-- `while (*it != ' ')`, with the bytes that are left as fuel; each turn takes nine of them.
unfoldable pub build_entries :
    ℕ → Bytes → Bytes → Cache → List BlockRead → Option (Cache × List BlockRead × Bytes)
build_entries zero key buf c reads = none
build_entries (suc fuel) key [] c reads = none
build_entries (suc fuel) key (b ∷ buf) c reads = elim (b == b' ') [
  | true ↦ some (c, reads, b ∷ buf)
  | false ↦ elim (read_entry buf) [
    | none ↦ none
    | some (bid, size, rest) ↦ elim (b == b'.') [
      | true ↦ elim (set (record { file_key = key; block_id = bid; data_size = size }) c) [
        | none ↦ none
        | some c' ↦ some (c', reads, rest)
      ]
      | false ↦ build_entries fuel key rest c (reads ++ (block_read key bid size ∷ []))
    ]
  ]
]

-- The outer loop, with the bytes of the table as fuel.
unfoldable pub build_from : ℕ → Bytes → Cache → List BlockRead → Option (Cache × List BlockRead)
build_from zero buf c reads = none
build_from (suc fuel) [] c reads = some (c, reads)
build_from (suc fuel) (b ∷ bs) c reads = elim (fetch 32 (b ∷ bs)) [
  | none ↦ none
  | some (key, buf) ↦
      elim (build_entries (suc (length buf)) key buf
        (record c { files = emplace_file key [] c.files }) reads) [
          | none ↦ none
          | some (c', reads', rest) ↦ build_from fuel (drop 1 rest) c' reads'
        ]
]

-- `build_cache`: the cache, and the reads that were started.
unfoldable pub build_cache : Bytes → Cache → Option (Cache × List BlockRead)
build_cache cache_table c = build_from (suc (length cache_table)) cache_table c []

-- The callback of such a read.
unfoldable pub on_block_read : BlockRead → Bytes → Cache → Cache
on_block_read r buf c = elim (find_file r.file_key c.files) [
  | none ↦ c
  | some blocks ↦ record c {
    files = update_file r.file_key (emplace_block r.bid buf blocks) c.files;
  }
]
