-- ===== src/Launcher/Transfer/Files.antt =====
-- The files that the launcher reads out of the table of a cache.
use slsfs.Prelude.{
  take-append, take, sym, drop-append, drop, ◌∙◌, append_assoc, ◌∙◌, ltb, ap, arith, ◌+◌, ◌≤◌, map,
  ◌+◌, ◌≤◌, length-append, ◌≡◌, List, All-append, ◌≡◌, ◌++◌, ◌==◌, length, All, ℕ, ◌>>=◌, refl, suc,
  zero, false, some, ◌∷◌, [],
}
use slsfs.Bytes.{Bytes}
use slsfs.Cache.Table.{BlockMap, CachingMap}
use slsfs.Cache.Lru.{Entry, Cache}
use slsfs.Cache.Handover.{block_bytes, blocks_table, files_table, lru_table, get_tables}
use slsfs.Cache.Handover.Sizes.{without_counts-get_tables, length-files_table, length-lru_table}
use slsfs.Launcher.Transfer.{find_blank, fileids_from, get_fileids_from_transfer, without_counts}
use mathlib.Core.List.{reverse}

abbrev pub IsNoBlank : ℕ → Type 0
IsNoBlank b = (b == b' ') ≡ false

find_blank-append : (xs ys : Bytes) → All IsNoBlank xs → find_blank (xs ++ (b' ' ∷ ys)) ≡ b' ' ∷ ys
unfolding find_blank
find_blank-append [] ys h = refl
find_blank-append (x ∷ xs) ys h = rw h.0 (find_blank-append xs ys h.1)

-- A key, then bytes up to a blank.
fileids_from-step :
    (fuel : ℕ) (key xs ys : Bytes)
    → length key ≡ 32
    → All IsNoBlank xs
    → fileids_from (suc fuel) (key ++ (xs ++ (b' ' ∷ ys)))
      ≡ (fileids_from fuel ys >>= λ keys. some (key ∷ keys))
unfolding fileids_from
fileids_from-step fuel key xs ys size no_blank =
    let buf = xs ++ (b' ' ∷ ys) in
    let long = length-append key buf in
    let some_bytes : (length (key ++ buf) == 0) ≡ false = ground (arith, long, size) in
    let whole : ltb (length (key ++ buf)) 32 ≡ false = ground (arith, long, size) in
    let d : drop 32 (key ++ buf) ≡ buf = drop-append key buf 32 (sym size) in
    let t : take 32 (key ++ buf) ≡ key = take-append key buf 32 (sym size) in
    rw (some_bytes, whole, d, t) (rw (find_blank-append xs ys no_blank) refl)

-- The numbers and sizes of a file's blocks, and those of a node, have no byte that is a blank.
abbrev pub NoBlankBlocks : BlockMap → Type 0
NoBlankBlocks = All (λ b. All IsNoBlank (block_bytes b.0 (length b.1)))

pub record IsPlainFile (f : Bytes × BlockMap) : Type 0 where
  pub key_size : length f.0 ≡ 32
  pub no_blank : NoBlankBlocks f.1

pub record IsPlainNode (e : Entry) : Type 0 where
  pub key_size : length e.file_key ≡ 32
  pub no_blank : All IsNoBlank (block_bytes e.block_id e.data_size)

blocks_table-All : (bs : BlockMap) → NoBlankBlocks bs → All IsNoBlank (blocks_table bs)
unfolding blocks_table
blocks_table-All [] h = tt
blocks_table-All ((id, buf) ∷ []) h = h.0
blocks_table-All ((id, buf) ∷ b ∷ bs) h =
    All-append IsNoBlank (block_bytes id (length buf)) (b',' ∷ blocks_table (b ∷ bs)) h.0
      (refl, blocks_table-All (b ∷ bs) h.1)

fileids_from-nodes :
    (fuel : ℕ) (es : List Entry)
    → All IsPlainNode es
    → length es ≤ fuel
    → fileids_from fuel (lru_table es) ≡ some (map (λ e. e.file_key) es)
unfolding fileids_from lru_table
fileids_from-nodes zero [] h le = refl
fileids_from-nodes (suc fuel) [] h le = refl
fileids_from-nodes zero (e ∷ es) h le = absurd (omega arith)
fileids_from-nodes (suc fuel) (e ∷ es) h le =
    fileids_from-step fuel e.file_key (b'.' ∷ block_bytes e.block_id e.data_size) (lru_table es)
      h.0.key_size (refl, h.0.no_blank)
    ∙ ap (λ o. o >>= λ keys. some (e.file_key ∷ keys))
        (fileids_from-nodes fuel es h.1 (omega arith))

fileids_from-files :
    (fuel : ℕ) (files : CachingMap) (es : List Entry)
    → All IsPlainFile files
    → All IsPlainNode es
    → length files + length es ≤ fuel
    → fileids_from fuel (files_table files ++ lru_table es)
      ≡ some (map (λ f. f.0) files ++ map (λ e. e.file_key) es)
unfolding files_table
fileids_from-files fuel [] es h k le = fileids_from-nodes fuel es k (omega arith)
fileids_from-files zero (f ∷ fs) es h k le = absurd (omega arith)
fileids_from-files (suc fuel) ((key, blocks) ∷ fs) es h k le =
    let bl = blocks_table blocks in
    let lt = lru_table es in
    ap (fileids_from (suc fuel)) (
      append_assoc key (b':' ∷ (bl ++ (b' ' ∷ files_table fs))) lt
      ∙ ap (λ l. key ++ (b':' ∷ l)) (append_assoc bl (b' ' ∷ files_table fs) lt))
    ∙ fileids_from-step fuel key (b':' ∷ bl) (files_table fs ++ lt) h.0.key_size
        (refl, blocks_table-All blocks h.0.no_blank)
    ∙ ap (λ o. o >>= λ keys. some (key ∷ keys)) (fileids_from-files fuel fs es h.1 k (omega arith))

-- From the table of a data function that closes the launcher reads the names of its files, then those of
-- its nodes from the oldest on, where no byte of a block's number or size is a blank.
pub fileids_of_tables :
    (hits : ℕ) (c : Cache)
    → All IsPlainFile c.files
    → All IsPlainNode (reverse c.nodes)
    → get_fileids_from_transfer (without_counts (get_tables hits c))
      ≡ some (map (λ f. f.0) c.files ++ map (λ e. e.file_key) (reverse c.nodes))
unfolding get_fileids_from_transfer
fileids_of_tables hits c files nodes =
    let ft = files_table c.files in
    let lt = lru_table (reverse c.nodes) in
    ap get_fileids_from_transfer (without_counts-get_tables hits c)
    ∙ fileids_from-files (length (ft ++ lt)) c.files (reverse c.nodes) files nodes (
        omega (
          arith,
          length-append ft lt,
          length-files_table c.files,
          length-lru_table (reverse c.nodes),
        ))
