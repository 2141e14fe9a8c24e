-- ===== src/Launcher/Transfer/Blank.antt =====
-- A byte of a block's number that is a blank: the launcher takes it for the end of the file's entry.
use slsfs.Prelude.{
  ap₂, append_assoc, ◌%◌, ◌%◌, take-append-drop, ap, ◌∙◌, ◌∙◌, take-append, length-drop, sym,
  length-take, Bool-cases, drop-append, take, ltb, length-append, ◌/◌, ◌+◌, ◌/◌, ◌+◌, arith, drop,
  ◌==◌, ◌++◌, ◌≤◌, ◌<◌, ◌≡◌, ◌≤◌, ◌<◌, ◌≡◌, length, ℕ, ◌>>=◌, refl, suc, zero, inr, inl, false,
  true, none, some, ◌∷◌, [],
}
use slsfs.Bytes.{Bytes, store}
use slsfs.Bytes.Laws.{length-store}
use slsfs.Cache.Lru.{Cache}
use slsfs.Cache.Handover.{block_bytes, blocks_table, files_table, lru_table, get_tables}
use slsfs.Cache.Handover.Sizes.{without_counts-get_tables}
use slsfs.Launcher.Transfer.{find_blank, fileids_from, get_fileids_from_transfer, without_counts}
use mathlib.Core.List.{reverse}

fileids_from-key :
    (fuel : ℕ) (key buf : Bytes)
    → length key ≡ 32
    → fileids_from (suc fuel) (key ++ buf)
      ≡ (fileids_from fuel (drop 1 (find_blank buf)) >>= λ keys. some (key ∷ keys))
unfolding fileids_from
fileids_from-key fuel key buf size =
    let long = length-append key buf in
    let some_bytes : (length (key ++ buf) == 0) ≡ false = ground (arith, long, size) in
    let whole : ltb (length (key ++ buf)) 32 ≡ false = ground (arith, long, size) in
    let d : drop 32 (key ++ buf) ≡ buf = drop-append key buf 32 (sym size) in
    let t : take 32 (key ++ buf) ≡ key = take-append key buf 32 (sym size) in
    rw (some_bytes, whole, d, t) refl

fileids_from-short :
    (fuel : ℕ) (buf : Bytes) → 0 < length buf → length buf < 32 → fileids_from (suc fuel) buf ≡ none
unfolding fileids_from
fileids_from-short fuel buf some_bytes short =
    let a : (length buf == 0) ≡ false = ground arith in
    let b : ltb (length buf) 32 ≡ true = ground arith in rw (a, b) refl

-- What stands behind the first blank, where there is one, is not less than what stands behind that one.
length-find_blank :
    (xs ys : Bytes)
    → (suc (length ys) ≤ length (find_blank (xs ++ (b' ' ∷ ys))))
      × (length (find_blank (xs ++ (b' ' ∷ ys))) ≤ length xs + suc (length ys))
unfolding find_blank
length-find_blank [] ys = omega arith
length-find_blank (x ∷ xs) ys =
    let (lo, hi) = length-find_blank xs ys in
    let l = length-append xs (b' ' ∷ ys) in
    elim (Bool-cases (x == b' ')) [
      | inl blank ↦ rw blank (omega arith)
      | inr other ↦ rw other (omega arith)
    ]

-- The table of a cache with one block, whose number is 32 modulo 256.
blank_table :
    (fuel id size node_size : ℕ) (key : Bytes)
    → 3 ≤ fuel
    → length key ≡ 32
    → fileids_from fuel (
        key
        ++ (b':'
            ∷ b' '
            ∷ (store 3 (id / 256)
                ++ (store 4 size
                    ++ (b' '
                        ∷ (key
                            ++ (b'.'
                                ∷ b' '
                                ∷ (store 3 (id / 256) ++ (store 4 node_size ++ (b' ' ∷ []))))))))))
      ≡ none
unfolding find_blank
blank_table zero id size node_size key le k = absurd (omega arith)
blank_table (suc zero) id size node_size key le k = absurd (omega arith)
blank_table (suc (suc zero)) id size node_size key le k = absurd (omega arith)
blank_table (suc (suc (suc fuel))) id size node_size key le k =
    let k1 = take 24 key in
    let k2 = drop 24 key in
    let z : Bytes = store 3 (id / 256) ++ (store 4 node_size ++ (b' ' ∷ [])) in
    let c : Bytes = b'.' ∷ b' ' ∷ z in
    let a = store 3 (id / 256) ++ (store 4 size ++ (b' ' ∷ k1)) in
    let rest = store 3 (id / 256) ++ (store 4 size ++ (b' ' ∷ (key ++ c))) in
    let l3 = length-store 3 (id / 256) in
    let lz : length z ≡ 8 = omega (
      arith,
      length-append (store 3 (id / 256)) (store 4 node_size ++ (b' ' ∷ [])),
      length-append (store 4 node_size) (b' ' ∷ []),
      length-store 4 node_size,
    ) in
    let la : length a ≡ 32 = omega (
      arith,
      length-append (store 3 (id / 256)) (store 4 size ++ (b' ' ∷ k1)),
      length-append (store 4 size) (b' ' ∷ k1),
      length-store 4 size,
      length-take 24 key,
    ) in
    let x = (k2 ++ (b'.' ∷ [])) ++ (b' ' ∷ z) in
    let s3 = store 3 (id / 256) in
    let split : key ++ c ≡ k1 ++ x =
      ap (λ l. l ++ c) (sym (take-append-drop 24 key))
      ∙ append_assoc k1 k2 c
      ∙ ap (λ l. k1 ++ l) (sym (append_assoc k2 (b'.' ∷ []) (b' ' ∷ z))) in
    let cut : rest ≡ a ++ x =
      ap (λ l. s3 ++ (store 4 size ++ (b' ' ∷ l))) split
      ∙ ap (λ l. s3 ++ l) (sym (append_assoc (store 4 size) (b' ' ∷ k1) x))
      ∙ sym (append_assoc s3 (store 4 size ++ (b' ' ∷ k1)) x) in
    let (lo, hi) = length-find_blank (k2 ++ (b'.' ∷ [])) z in
    let lk = length-append k2 (b'.' ∷ []) in
    let ld = length-drop 24 key in
    let left = find_blank x in
    let l1 = length-drop 1 left in
    let short = fileids_from-short fuel (drop 1 left) (omega arith) (omega arith) in
    fileids_from-key (suc (suc fuel)) key (b':' ∷ b' ' ∷ rest) k
    ∙ ap (λ l. fileids_from (suc (suc fuel)) l >>= λ keys. some (key ∷ keys)) cut
    ∙ ap (λ o. o >>= λ keys. some (key ∷ keys))
        (fileids_from-key (suc fuel) a x la ∙ ap (λ o. o >>= λ keys. some (a ∷ keys)) short)

store-blank : (id : ℕ) → id % 256 ≡ 32 → store 4 id ≡ b' ' ∷ store 3 (id / 256)
unfolding store
store-blank id e = ap (λ b. b ∷ store 3 (id / 256)) e

-- The table of a data function that has cached one block, with a number that is 32 modulo 256, and has a
-- node for it, makes the launcher read past the end of the table.
pub blank_in_number_overruns :
    (hits id node_size : ℕ) (key buf : Bytes) (c : Cache)
    → length key ≡ 32
    → id % 256 ≡ 32
    → c.files ≡ (key, (id, buf) ∷ []) ∷ []
    → c.nodes ≡ record { file_key = key; block_id = id; data_size = node_size } ∷ []
    → get_fileids_from_transfer (without_counts (get_tables hits c)) ≡ none
unfolding get_fileids_from_transfer files_table lru_table blocks_table block_bytes
blank_in_number_overruns hits id node_size key buf c k blank files nodes =
    let tables =
      key
      ++ (b':'
          ∷ b' '
          ∷ (store 3 (id / 256)
              ++ (store 4 (length buf)
                  ++ (b' '
                      ∷ (key
                          ++ (b'.'
                              ∷ b' '
                              ∷ (store 3 (id / 256) ++ (store 4 node_size ++ (b' ' ∷ []))))))))) in
    let id_bytes : store 4 id ≡ b' ' ∷ store 3 (id / 256) = store-blank id blank in
    let e : without_counts (get_tables hits c) ≡ tables =
      without_counts-get_tables hits c
      ∙ ap₂ (λ fs ns. files_table fs ++ lru_table (reverse ns)) files nodes
      ∙ simp (append_assoc, id_bytes) in
    let l = length-append key (
      b':'
      ∷ b' '
      ∷ (store 3 (id / 256)
          ++ (store 4 (length buf)
              ++ (b' '
                  ∷ (key
                      ++ (b'.'
                          ∷ b' '
                          ∷ (store 3 (id / 256) ++ (store 4 node_size ++ (b' ' ∷ []))))))))) in
    ap get_fileids_from_transfer e
    ∙ blank_table (length tables) id (length buf) node_size key (omega arith) k
