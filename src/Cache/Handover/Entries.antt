-- ===== src/Cache/Handover/Entries.antt =====
-- How `build_cache` reads the table of one file and of one node.
use slsfs.Prelude.{
  length-append, ◌%◌, ◌∙◌, ltb, ◌∙◌, append-nil, ◌≤◌, drop, ◌≤◌, ap, arith, sym, append_assoc, ◌^◌,
  ◌+◌, ◌<◌, ◌+◌, ◌==◌, ◌++◌, map, length, ◌<◌, ◌≡◌, ◌≡◌, List, All, ℕ, refl, suc, zero, false, none,
  some, ◌∷◌, [],
}
use slsfs.Bytes.{Bytes}
use slsfs.Bytes.Laws.{fetch-store, fetch-append, load-store}
use slsfs.Cache.Table.{BlockMap, emplace_file}
use slsfs.Cache.Lru.{Entry, Cache, set, addnode, evict, take_out, find_node}
use slsfs.Cache.Handover.{
  block_bytes, blocks_table, BlockRead, block_read, read_entry, build_entries, build_from,
}

pub record Fits (id size : ℕ) : Type 0 where
  pub id_fits : id < 2 ^ 32
  pub size_fits : size < 2 ^ 32

abbrev pub BlocksFit : BlockMap → Type 0
BlocksFit = All (λ b. Fits b.0 (length b.1))

abbrev pub reads_of_file : Bytes → BlockMap → List BlockRead
reads_of_file key = map (λ b. block_read key b.0 (length b.1))

read_entry-block_bytes :
    (id size : ℕ) (rest : Bytes)
    → Fits id size
    → read_entry (block_bytes id size ++ rest) ≡ some (id, size, rest)
unfolding read_entry block_bytes
read_entry-block_bytes id size rest f =
    simp (append_assoc, fetch-store, load-store 4 id f.id_fits, load-store 4 size f.size_fits)

-- Each block behind its separator.
blocks_from : ℕ → BlockMap → Bytes
blocks_from sep [] = []
blocks_from sep ((id, buf) ∷ bs) = sep ∷ (block_bytes id (length buf) ++ blocks_from b',' bs)

blocks_from-table :
    (b : ℕ × Bytes) (bs : BlockMap) → b':' ∷ blocks_table (b ∷ bs) ≡ blocks_from b':' (b ∷ bs)
unfolding blocks_table blocks_from
blocks_from-table b bs = ap (λ l. b':' ∷ l) (go b bs)
  where
    go :
        (b : ℕ × Bytes) (bs : BlockMap)
        → blocks_table (b ∷ bs) ≡ block_bytes b.0 (length b.1) ++ blocks_from b',' bs
    go (id, buf) [] = sym (append-nil (block_bytes id (length buf)))
    go (id, buf) (b ∷ bs) = ap (λ l. block_bytes id (length buf) ++ (b',' ∷ l)) (go b bs)

length-blocks_from : (sep : ℕ) (bs : BlockMap) → length bs ≤ length (blocks_from sep bs)
unfolding blocks_from
length-blocks_from sep [] = omega arith
length-blocks_from sep ((id, buf) ∷ bs) = omega (
  arith,
  length-append (block_bytes id (length buf)) (blocks_from b',' bs),
  length-blocks_from b',' bs,
)

pub length-blocks_table :
    (b : ℕ × Bytes) (bs : BlockMap) → length (b ∷ bs) ≤ suc (length (blocks_table (b ∷ bs)))
length-blocks_table b bs =
    omega (arith, ap (λ l. length l) (blocks_from-table b bs), length-blocks_from b':' (b ∷ bs))

build_entries-block :
    (sep fuel id size : ℕ) (key rest : Bytes) (c : Cache) (reads : List BlockRead)
    → (sep == b' ') ≡ false
    → (sep == b'.') ≡ false
    → Fits id size
    → build_entries (suc fuel) key (sep ∷ (block_bytes id size ++ rest)) c reads
      ≡ build_entries fuel key rest c (reads ++ (block_read key id size ∷ []))
unfolding build_entries
build_entries-block sep fuel id size key rest c reads not_blank not_dot f =
    rw (not_blank, build_entries) (rw (read_entry-block_bytes id size rest f) (rw not_dot refl))

build_entries-blocks :
    (sep fuel : ℕ) (bs : BlockMap) (key rest : Bytes) (c : Cache) (reads : List BlockRead)
    → (sep == b' ') ≡ false
    → (sep == b'.') ≡ false
    → BlocksFit bs
    → length bs < fuel
    → build_entries fuel key (blocks_from sep bs ++ (b' ' ∷ rest)) c reads
      ≡ some (c, reads ++ reads_of_file key bs, b' ' ∷ rest)
unfolding build_entries blocks_from
build_entries-blocks sep zero bs key rest c reads nb nd f lt = absurd (omega arith)
build_entries-blocks sep (suc fuel) [] key rest c reads nb nd f lt =
    ap (λ r. some (c, r, b' ' ∷ rest)) (sym (append-nil reads))
build_entries-blocks sep (suc fuel) ((id, buf) ∷ bs) key rest c reads nb nd f lt =
    let r = block_read key id (length buf) in
    ap (λ l. build_entries (suc fuel) key (sep ∷ l) c reads)
      (append_assoc (block_bytes id (length buf)) (blocks_from b',' bs) (b' ' ∷ rest))
    ∙ build_entries-block sep fuel id (length buf) key (blocks_from b',' bs ++ (b' ' ∷ rest)) c
        reads nb nd f.0
    ∙ build_entries-blocks b',' fuel bs key rest c (reads ++ (r ∷ [])) refl refl f.1 (omega arith)
    ∙ ap (λ l. some (c, l, b' ' ∷ rest)) (append_assoc reads (r ∷ []) (reads_of_file key bs))

-- The table of a file is read whole, up to the blank behind it.
pub build_entries-file :
    (fuel : ℕ) (b : ℕ × Bytes) (bs : BlockMap) (key rest : Bytes) (c : Cache)
    (reads : List BlockRead)
    → BlocksFit (b ∷ bs)
    → length (b ∷ bs) < fuel
    → build_entries fuel key (b':' ∷ (blocks_table (b ∷ bs) ++ (b' ' ∷ rest))) c reads
      ≡ some (c, reads ++ reads_of_file key (b ∷ bs), b' ' ∷ rest)
build_entries-file fuel b bs key rest c reads f lt =
    ap (λ l. build_entries fuel key (l ++ (b' ' ∷ rest)) c reads) (blocks_from-table b bs)
    ∙ build_entries-blocks b':' fuel (b ∷ bs) key rest c reads refl refl f lt

-- A node that is new and has room is put in front.
pub set-new :
    (e : Entry) (c : Cache)
    → find_node e c.nodes ≡ none
    → c.cur_size + e.data_size ≤ c.cap
    → c.cap < 2 ^ 32
    → set e c ≡ some (addnode e c)
unfolding set take_out evict
set-new e c new room cap =
    let same : take_out e c ≡ c = rw (new, take_out) refl in
    let stops : ltb c.cap ((c.cur_size + e.data_size) % 2 ^ 32) ≡ false =
      let small : (c.cur_size + e.data_size) % 2 ^ 32 ≡ c.cur_size + e.data_size = omega arith in
      rw small (ground arith) in
    let kept : evict (suc (length c.nodes)) e.data_size c ≡ some c = rw (stops, evict) refl in
    rw same (rw kept refl)

pub build_entries-node :
    (fuel : ℕ) (e : Entry) (rest : Bytes) (c c' : Cache) (reads : List BlockRead)
    → Fits e.block_id e.data_size
    → set e c ≡ some c'
    → build_entries
        (suc fuel)
        e.file_key
        (b'.' ∷ (block_bytes e.block_id e.data_size ++ (b' ' ∷ rest)))
        c
        reads
      ≡ some (c', reads, b' ' ∷ rest)
unfolding build_entries
build_entries-node fuel e rest c c' reads f s =
    rw (read_entry-block_bytes e.block_id e.data_size (b' ' ∷ rest) f, build_entries) (rw s refl)

-- One turn of the outer loop.
pub build_from-step :
    (fuel : ℕ) (key buf rest : Bytes) (c c' : Cache) (reads reads' : List BlockRead)
    → length key ≡ 32
    → build_entries
        (suc (length buf))
        key
        buf
        (record c { files = emplace_file key [] c.files })
        reads
      ≡ some (c', reads', rest)
    → build_from (suc fuel) (key ++ buf) c reads ≡ build_from fuel (drop 1 rest) c' reads'
unfolding build_from
build_from-step fuel [] buf rest c c' reads reads' size e = absurd (omega arith)
build_from-step fuel (k ∷ ks) buf rest c c' reads reads' size e =
    rw (fetch-append 32 (k ∷ ks) buf size, build_from) (rw e refl)

pub build_from-end :
    (fuel : ℕ) (c : Cache) (reads : List BlockRead)
    → build_from (suc fuel) [] c reads ≡ some (c, reads)
unfolding build_from
build_from-end fuel c reads = refl
