-- ===== src/Cache/Table.antt =====
-- `caching_map` and `block_map` of caching.hpp: the files that are cached, and the blocks of each.
-- The concurrent hash maps are association lists; a lookup finds the first entry.
use slsfs.Bytes.{Bytes}
use slsfs.Prelude.{
  ◌&&◌, Bool, ◌==◌, Option, List, if◌then◌else◌, false, true, none, some, ◌∷◌, [], ℕ,
}

unfoldable pub same_bytes : Bytes → Bytes → Bool
same_bytes [] [] = true
same_bytes (x ∷ xs) (y ∷ ys) = x == y && same_bytes xs ys
same_bytes xs ys = false

abbrev pub BlockMap : Type 0
BlockMap = List (ℕ × Bytes)

abbrev pub CachingMap : Type 0
CachingMap = List (Bytes × BlockMap)

unfoldable pub find_block : ℕ → BlockMap → Option Bytes
find_block b [] = none
find_block b ((id, buf) ∷ blocks) = if b == id then some buf else find_block b blocks

-- `emplace` keeps what is there under the same key.
unfoldable pub emplace_block : ℕ → Bytes → BlockMap → BlockMap
emplace_block b buf blocks = elim (find_block b blocks) [
  | none ↦ (b, buf) ∷ blocks
  | some old ↦ blocks
]

unfoldable pub erase_block : ℕ → BlockMap → BlockMap
erase_block b [] = []
erase_block b ((id, buf) ∷ blocks) = if b == id then blocks else (id, buf) ∷ erase_block b blocks

unfoldable pub find_file : Bytes → CachingMap → Option BlockMap
find_file f [] = none
find_file f ((key, blocks) ∷ files) = if same_bytes f key then some blocks else find_file f files

unfoldable pub emplace_file : Bytes → BlockMap → CachingMap → CachingMap
emplace_file f blocks files = elim (find_file f files) [
  | none ↦ (f, blocks) ∷ files
  | some old ↦ files
]

-- What an accessor to a file's blocks writes.
unfoldable pub update_file : Bytes → BlockMap → CachingMap → CachingMap
update_file f blocks [] = []
update_file f blocks ((key, old) ∷ files) =
    if same_bytes f key then (key, blocks) ∷ files else (key, old) ∷ update_file f blocks files

unfoldable pub erase_file : Bytes → CachingMap → CachingMap
erase_file f [] = []
erase_file f ((key, old) ∷ files) =
    if same_bytes f key then files else (key, old) ∷ erase_file f files
