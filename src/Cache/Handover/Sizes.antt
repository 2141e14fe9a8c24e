-- ===== src/Cache/Handover/Sizes.antt =====
-- The sizes of the tables, and what the launcher leaves of them.
use slsfs.Prelude.{
  take-append, length-append, ◌-◌, ◌-◌, arith, ◌≤◌, ◌≡◌, ◌≤◌, ◌++◌, ◌≡◌, ℕ, List, length, ◌∷◌, [],
}
use slsfs.Bytes.{Bytes, store}
use slsfs.Bytes.Laws.{length-store}
use slsfs.Cache.Table.{CachingMap}
use slsfs.Cache.Lru.{Entry, Cache}
use slsfs.Cache.Handover.{blocks_table, block_bytes, files_table, lru_table, get_tables}
use slsfs.Launcher.Transfer.{without_counts}
use mathlib.Core.List.{reverse}

pub length-files_table : (files : CachingMap) → length files ≤ length (files_table files)
unfolding files_table
length-files_table [] = omega arith
length-files_table ((key, blocks) ∷ files) =
    let tail : Bytes = b' ' ∷ files_table files in
    omega (
      arith,
      length-append key (b':' ∷ (blocks_table blocks ++ tail)),
      length-append (blocks_table blocks) tail,
      length-files_table files,
    )

pub length-lru_table : (es : List Entry) → length es ≤ length (lru_table es)
unfolding lru_table
length-lru_table [] = omega arith
length-lru_table (e ∷ es) =
    let tail : Bytes = b' ' ∷ lru_table es in
    omega (
      arith,
      length-append e.file_key (b'.' ∷ (block_bytes e.block_id e.data_size ++ tail)),
      length-append (block_bytes e.block_id e.data_size) tail,
      length-lru_table es,
    )

-- The launcher takes the two counts off a table, and nothing else.
pub without_counts-get_tables :
    (hits : ℕ) (c : Cache)
    → without_counts (get_tables hits c) ≡ files_table c.files ++ lru_table (reverse c.nodes)
unfolding without_counts get_tables
without_counts-get_tables hits c =
    let tables = files_table c.files ++ lru_table (reverse c.nodes) in
    let tail = store 4 hits ++ store 4 c.evictions in
    take-append tables tail (length (tables ++ tail) - 8) (
      omega (
        arith,
        length-append tables tail,
        length-append (store 4 hits) (store 4 c.evictions),
        length-store 4 hits,
        length-store 4 c.evictions,
      ))
