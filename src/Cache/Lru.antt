-- ===== src/Cache/Lru.antt =====
-- `LRUCache` of caching.hpp. The nodes between `head` and `tail` are a list, the most recently used
-- first; the map `m` leads from a key to its node, so the list stands for both. `none` is undefined
-- behaviour: the loop of `set` running past an empty list, where it deletes `head`.
pub mod Set
use slsfs.Bytes.{Bytes}
use slsfs.Prelude.{
  ◌^◌, ◌%◌, ◌==◌, ◌&&◌, length, ltb, ◌-◌, ◌+◌, Option, List, Bool, ◌>>=◌, if◌then◌else◌, refl, suc,
  zero, inr, inl, false, true, none, some, ◌∷◌, [], ℕ,
}
use slsfs.Cache.Table.{
  find_file, find_block, erase_block, erase_file, update_file, same_bytes, CachingMap,
}

pub record Entry : Type 0 where
  pub file_key : Bytes
  pub block_id : ℕ
  pub data_size : ℕ

-- `operator==` of `cache_entry`, which its order agrees with.
unfoldable pub same_entry : Entry → Entry → Bool
same_entry a b = same_bytes a.file_key b.file_key && a.block_id == b.block_id

-- The cache: the nodes, `cur_size_`, `cap`, `evictions`, and `caching_map_`.
pub record Cache : Type 0 where
  pub nodes : List Entry
  pub cur_size : ℕ
  pub cap : ℕ
  pub evictions : ℕ
  pub files : CachingMap

-- `m.find`
unfoldable pub find_node : Entry → List Entry → Option Entry
find_node key [] = none
find_node key (e ∷ es) = if same_entry key e then some e else find_node key es

unfoldable pub erase_node : Entry → List Entry → List Entry
erase_node key [] = []
erase_node key (e ∷ es) = if same_entry key e then es else e ∷ erase_node key es

-- `addnode(new node(key, 0))`
unfoldable pub addnode : Entry → Cache → Cache
addnode e c = record c { nodes = e ∷ c.nodes; cur_size = c.cur_size + e.data_size }

-- `delete_entry_from_cache`
unfoldable pub delete_entry_from_cache : Entry → Cache → Cache
delete_entry_from_cache e c = elim (find_file e.file_key c.files) [
  | none ↦ c
  | some blocks ↦
      let rest = erase_block e.block_id blocks in
      let found : ℕ = elim (find_block e.block_id blocks) [ none ↦ 0 | some buf ↦ 1 ] in
      let kept : CachingMap = elim rest [
        | [] ↦ erase_file e.file_key c.files
        | b ∷ bs ↦ update_file e.file_key (b ∷ bs) c.files
      ] in
      record c { evictions = c.evictions + found; files = kept }
]

-- All but the last element, and the last one: `tail->prev`.
unfoldable pub unsnoc : List Entry → Option (List Entry × Entry)
unsnoc [] = none
unsnoc (e ∷ es) = elim (unsnoc es) [
  | none ↦ some ([], e)
  | some (init, last) ↦ some (e ∷ init, last)
]

-- `while (cur_size_ + key.data_size_ > cap)`, a `std::uint32_t` sum: each turn drops the node before
-- `tail`. There are at most as many turns as nodes.
unfoldable pub evict : ℕ → ℕ → Cache → Option Cache
evict zero data_size c = none
evict (suc fuel) data_size c = elim (ltb c.cap ((c.cur_size + data_size) % 2 ^ 32)) [
  | false ↦ some c
  | true ↦ elim (unsnoc c.nodes) [
    | none ↦ none
    | some (init, last) ↦ evict fuel data_size (record (delete_entry_from_cache last c) {
      nodes = init;
      cur_size = c.cur_size - last.data_size;
    })
  ]
]

-- A key that is there is taken out first.
unfoldable pub take_out : Entry → Cache → Cache
take_out key c = elim (find_node key c.nodes) [
  | none ↦ c
  | some exist ↦ record c {
    nodes = erase_node key c.nodes;
    cur_size = c.cur_size - exist.data_size;
  }
]

unfoldable pub set : Entry → Cache → Option Cache
set key c = do
  let c = take_out key c
  c ← evict (suc (length c.nodes)) key.data_size c
  some (addnode key c)
