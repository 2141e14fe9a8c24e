-- ===== src/Cache/Handover/Rebuild.antt =====
-- A data function that builds its cache from the table of another fetches the blocks that the other had
-- and keeps its nodes in their order.
use slsfs.Cache.Handover.Sizes.{without_counts-get_tables, length-lru_table, length-files_table}
use slsfs.Prelude.{
  ◌+◌, ◌+◌, All-append, length-append, subst, ap, append-nil, append_assoc, ap₂, ◌-◌, ◌^◌, sym, ◌-◌,
  ◌∙◌, ◌<◌, ◌∙◌, arith, ◌<◌, ◌≤◌, ◌≡◌, ◌≤◌, All, ◌++◌, ◌≡◌, ℕ, List, length, refl, suc, zero, none,
  some, ◌∷◌, [],
}
use slsfs.Bytes.{Bytes}
use slsfs.Cache.Table.{BlockMap, CachingMap, emplace_file}
use slsfs.Cache.Lru.{Entry, Cache, addnode, find_node}
use slsfs.Cache.Lru.Set.{total}
use slsfs.Cache.Handover.{
  blocks_table, block_bytes, files_table, lru_table, get_tables, BlockRead, build_from, build_cache,
}
use slsfs.Cache.Handover.Entries.{
  length-blocks_table, build_from-end, Fits, BlocksFit, reads_of_file, build_entries-file,
  build_entries-node, build_from-step, set-new,
}
use slsfs.Launcher.Transfer.{without_counts}
use mathlib.Core.List.{reverse, reverse-cons, reverse-reverse}

-- A file in the cache: a name of 32 bytes, and some blocks with numbers and sizes of 32 bits.
pub record IsCachedFile (f : Bytes × BlockMap) : Type 0 where
  pub key_size : length f.0 ≡ 32
  pub some_block : 0 < length f.1
  pub blocks_fit : BlocksFit f.1

pub record IsNode (e : Entry) : Type 0 where
  pub key_size : length e.file_key ≡ 32
  pub fits : Fits e.block_id e.data_size

-- No block twice.
abbrev pub Distinct : List Entry → Type 0
Distinct [] = Unit
Distinct (e ∷ es) = (find_node e es ≡ none) × Distinct es

abbrev pub reads_of_files : CachingMap → List BlockRead
reads_of_files [] = []
reads_of_files ((key, blocks) ∷ files) = reads_of_file key blocks ++ reads_of_files files

abbrev with_file : Bytes → Cache → Cache
with_file key c = record c { files = emplace_file key [] c.files }

abbrev with_files : CachingMap → Cache → Cache
with_files [] c = c
with_files ((key, blocks) ∷ files) c = with_files files (with_file key c)

abbrev with_nodes : List Entry → Cache → Cache
with_nodes [] c = c
with_nodes (e ∷ es) c = with_nodes es (addnode e (with_file e.file_key c))

build_from-files :
    (fuel : ℕ) (files : CachingMap) (rest : Bytes) (c : Cache) (reads : List BlockRead)
    → All IsCachedFile files
    → length files < fuel
    → build_from fuel (files_table files ++ rest) c reads
      ≡ build_from (fuel - length files) rest (with_files files c) (reads ++ reads_of_files files)
unfolding files_table
build_from-files fuel [] rest c reads f lt =
    ap₂ (λ n r. build_from n rest c r) (omega arith) (sym (append-nil reads))
build_from-files zero (f ∷ fs) rest c reads h lt = absurd (omega arith)
build_from-files (suc fuel) ((key, []) ∷ fs) rest c reads h lt =
    let bad : 0 < 0 = h.0.some_block in absurd (omega arith)
build_from-files (suc fuel) ((key, b ∷ bs) ∷ fs) rest c reads h lt =
    let bl = blocks_table (b ∷ bs) in
    let tail = files_table fs ++ rest in
    let buf : Bytes = b':' ∷ (bl ++ (b' ' ∷ tail)) in
    let rf = reads_of_file key (b ∷ bs) in
    let enough : length (b ∷ bs) < suc (length buf) =
      omega (arith, length-append bl (b' ' ∷ tail), length-blocks_table b bs) in
    ap (λ l. build_from (suc fuel) l c reads)
      (append_assoc key (b':' ∷ (bl ++ (b' ' ∷ files_table fs))) rest
        ∙ ap (λ l. key ++ (b':' ∷ l)) (append_assoc bl (b' ' ∷ files_table fs) rest))
    ∙ build_from-step fuel key buf (b' ' ∷ tail) c (with_file key c) reads (reads ++ rf)
        h.0.key_size
        (build_entries-file (suc (length buf)) b bs key tail (with_file key c) reads h.0.blocks_fit
          enough)
    ∙ build_from-files fuel fs rest (with_file key c) (reads ++ rf) h.1 (omega arith)
    ∙ ap₂ (λ n r. build_from n rest (with_files fs (with_file key c)) r) (omega arith)
        (append_assoc reads rf (reads_of_files fs))

Distinct-suffix : (xs ys : List Entry) → Distinct (xs ++ ys) → Distinct ys
Distinct-suffix [] ys d = d
Distinct-suffix (x ∷ xs) ys d = Distinct-suffix xs ys d.1

total-suffix : (xs ys : List Entry) → total ys ≤ total (xs ++ ys)
total-suffix [] ys = omega arith
total-suffix (x ∷ xs) ys = omega (arith, total-suffix xs ys)

nodes-with_nodes : (es : List Entry) (c : Cache) → (with_nodes es c).nodes ≡ reverse es ++ c.nodes
unfolding addnode
nodes-with_nodes [] c = refl
nodes-with_nodes (e ∷ es) c =
    nodes-with_nodes es (addnode e (with_file e.file_key c))
    ∙ sym (append_assoc (reverse es) (e ∷ []) c.nodes)
    ∙ ap (λ l. l ++ c.nodes) (sym (reverse-cons e es))

build_from-nodes :
    (fuel : ℕ) (es : List Entry) (c : Cache) (reads : List BlockRead)
    → All IsNode es
    → Distinct (reverse es ++ c.nodes)
    → total (reverse es ++ c.nodes) ≤ c.cap
    → c.cur_size ≡ total c.nodes
    → c.cap < 2 ^ 32
    → length es < fuel
    → build_from fuel (lru_table es) c reads ≡ some (with_nodes es c, reads)
unfolding lru_table addnode
build_from-nodes zero es c reads f d t s cap lt = absurd (omega arith)
build_from-nodes (suc fuel) [] c reads f d t s cap lt = build_from-end fuel c reads
build_from-nodes (suc fuel) (e ∷ es) c reads f d t s cap lt =
    let c' = addnode e (with_file e.file_key c) in
    let buf : Bytes = b'.' ∷ (block_bytes e.block_id e.data_size ++ (b' ' ∷ lru_table es)) in
    let q : reverse (e ∷ es) ++ c.nodes ≡ reverse es ++ (e ∷ c.nodes) =
      ap (λ l. l ++ c.nodes) (reverse-cons e es) ∙ append_assoc (reverse es) (e ∷ []) c.nodes in
    let d' : Distinct (reverse es ++ (e ∷ c.nodes)) = subst Distinct q d in
    let t' : total (reverse es ++ (e ∷ c.nodes)) ≤ c.cap = rw q at t in
    let new : find_node e c.nodes ≡ none = (Distinct-suffix (reverse es) (e ∷ c.nodes) d').0 in
    let room : c.cur_size + e.data_size ≤ c.cap =
      omega (arith, total-suffix (reverse es) (e ∷ c.nodes)) in
    build_from-step fuel e.file_key buf (b' ' ∷ lru_table es) c c' reads reads f.0.key_size (
      build_entries-node (length buf) e (lru_table es) (with_file e.file_key c) c' reads f.0.fits
        (set-new e (with_file e.file_key c) new room cap))
    ∙ build_from-nodes fuel es c' reads f.1 d' t' (omega arith) cap (omega arith)

with_files-rest :
    (files : CachingMap) (c : Cache)
    → ((with_files files c).nodes ≡ c.nodes)
      × ((with_files files c).cap ≡ c.cap)
      × ((with_files files c).cur_size ≡ c.cur_size)
with_files-rest [] c = (refl, refl, refl)
with_files-rest ((key, blocks) ∷ files) c = with_files-rest files (with_file key c)

All-reverse : (es : List Entry) → All IsNode es → All IsNode (reverse es)
All-reverse [] h = tt
All-reverse (e ∷ es) h =
    rw (reverse-cons e es) (All-append IsNode (reverse es) (e ∷ []) (All-reverse es h.1) (h.0, tt))

-- What a data function that closes writes down, less the counts that the launcher takes off, is read
-- whole by a new one that has cached nothing and has room for it: the new one starts a read of each block
-- that was cached, of the size that was cached, and its nodes are the old ones in the same order. Files
-- have names of 32 bytes and some block each, numbers and sizes fit 32 bits, and no node is there twice.
pub handed_over :
    (hits : ℕ) (old new : Cache)
    → All IsCachedFile old.files
    → All IsNode old.nodes
    → Distinct old.nodes
    → total old.nodes ≤ new.cap
    → new.cap < 2 ^ 32
    → new.nodes ≡ []
    → new.cur_size ≡ 0
    → (c : Cache) × (build_cache (without_counts (get_tables hits old)) new
        ≡ some (c, reads_of_files old.files))
      × (c.nodes ≡ old.nodes)
unfolding build_cache
handed_over hits old new files nodes distinct room cap empty size =
    let es = reverse old.nodes in
    let ft = files_table old.files in
    let lt = lru_table es in
    let c1 = with_files old.files new in
    let fuel = suc (length (ft ++ lt)) in
    let (same_nodes, same_cap, same_size) = with_files-rest old.files new in
    let back : reverse es ++ c1.nodes ≡ old.nodes =
      ap₂ ◌++◌ (reverse-reverse old.nodes) (same_nodes ∙ empty) ∙ append-nil old.nodes in
    let bounds = length-append ft lt in
    let files_left = length-files_table old.files in
    let nodes_left = length-lru_table es in
    let read_files = build_from-files fuel old.files lt new [] files (omega arith) in
    let read_nodes =
      build_from-nodes (fuel - length old.files) es c1 (reads_of_files old.files)
        (All-reverse old.nodes nodes) (subst Distinct (sym back) distinct)
        (rw (back, same_cap) room) (same_size ∙ size ∙ ap total (sym (same_nodes ∙ empty)))
        (rw same_cap cap) (omega arith) in
    (
      with_nodes es c1,
      ap (λ l. build_from (suc (length l)) l new []) (without_counts-get_tables hits old)
          ∙ read_files
          ∙ read_nodes,
      nodes-with_nodes es c1 ∙ back,
    )
