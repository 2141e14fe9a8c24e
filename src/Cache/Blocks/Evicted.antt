-- ===== src/Cache/Blocks/Evicted.antt =====
-- What `set` does to the files: an eviction brings no file back, and there is none while there is room.
use slsfs.Cache.Lru.Set.{evict-done}
use slsfs.Prelude.{
  sym, ◌<◌, ◌<◌, arith, ◌≤◌, ◌≤◌, ◌-◌, ◌-◌, some_inj, ◌^◌, subst, ◌^◌, ◌∙◌, ◌%◌, ◌∙◌, ◌%◌, ◌+◌, ap,
  ◌+◌, length, ltb, Option-cases, Bool-cases, ◌≡◌, ℕ, ◌≡◌, refl, suc, zero, inr, inl, false, none,
  some, ◌∷◌, [],
}
use slsfs.Bytes.{Bytes}
use slsfs.Cache.Table.{
  BlockMap, CachingMap, same_bytes, find_file, erase_block, update_file, erase_file,
}
use slsfs.Cache.Lru.{
  Entry, Cache, find_node, addnode, delete_entry_from_cache, unsnoc, evict, take_out, set,
}

absent_head :
    (f key : Bytes) (blocks : BlockMap) (files : CachingMap)
    → find_file f ((key, blocks) ∷ files) ≡ none
    → (same_bytes f key ≡ false) × (find_file f files ≡ none)
unfolding find_file
absent_head f key blocks files h = elim (Bool-cases (same_bytes f key)) [
  | inl on ↦ let bad : some blocks ≡ none = rw (on, find_file) at h in absurd (cc)
  | inr off ↦ let rest : find_file f files ≡ none = rw (off, find_file) at h in (off, rest)
]

find_file-erase_file :
    (f g : Bytes) (files : CachingMap)
    → find_file f files ≡ none
    → find_file f (erase_file g files) ≡ none
unfolding erase_file find_file
find_file-erase_file f g [] h = refl
find_file-erase_file f g ((key, blocks) ∷ files) h =
    let (off, rest) = absent_head f key blocks files h in
    elim (Bool-cases (same_bytes g key)) [
      | inl same ↦ rw (same, erase_file) rest
      | inr other ↦
          rw (other, erase_file) (rw (off, find_file) (find_file-erase_file f g files rest))
    ]

find_file-update_file :
    (f g : Bytes) (new : BlockMap) (files : CachingMap)
    → find_file f files ≡ none
    → find_file f (update_file g new files) ≡ none
unfolding update_file find_file
find_file-update_file f g new [] h = refl
find_file-update_file f g new ((key, blocks) ∷ files) h =
    let (off, rest) = absent_head f key blocks files h in
    elim (Bool-cases (same_bytes g key)) [
      | inl same ↦ rw (same, update_file) (rw (off, find_file) rest)
      | inr other ↦
          rw (other, update_file) (rw (off, find_file) (find_file-update_file f g new files rest))
    ]

delete-absent :
    (f : Bytes) (e : Entry) (c : Cache)
    → find_file f c.files ≡ none
    → find_file f (delete_entry_from_cache e c).files ≡ none
unfolding delete_entry_from_cache
delete-absent f e c h = elim (Option-cases (find_file e.file_key c.files)) [
  | inl q ↦ rw (q, delete_entry_from_cache) h
  | inr (blocks, q) ↦ rw (q, delete_entry_from_cache) (kept (erase_block e.block_id blocks))
]
  where
    kept :
        (rest : BlockMap)
        → find_file f (elim rest [
          | [] ↦ erase_file e.file_key c.files
          | b ∷ bs ↦ update_file e.file_key (b ∷ bs) c.files
        ])
          ≡ none
    kept [] = find_file-erase_file f e.file_key c.files h
    kept (b ∷ bs) = find_file-update_file f e.file_key (b ∷ bs) c.files h

evict-absent :
    (f : Bytes) (fuel n : ℕ) (c c' : Cache)
    → find_file f c.files ≡ none
    → evict fuel n c ≡ some c'
    → find_file f c'.files ≡ none
unfolding evict
evict-absent f zero n c c' h r = absurd (cc)
evict-absent f (suc fuel) n c c' h r = elim (Bool-cases (ltb c.cap ((c.cur_size + n) % 2 ^ 32))) [
  | inr off ↦
      let same : some c ≡ some c' = rw (off, evict) at r in
      subst (λ x. find_file f x.files ≡ none) (some_inj same) h
  | inl on ↦ elim (Option-cases (unsnoc c.nodes)) [
    | inl q ↦ let bad : none ≡ some c' = rw q at (rw (on, evict) at r) in absurd (cc)
    | inr ((init, last), q) ↦
        let next : Cache = record (delete_entry_from_cache last c) {
          nodes = init;
          cur_size = c.cur_size - last.data_size;
        } in
        let step : evict fuel n next ≡ some c' = rw q at (rw (on, evict) at r) in
        evict-absent f fuel n next c' (delete-absent f last c h) step
  ]
]

take_out-files : (e : Entry) (c : Cache) → (take_out e c).files ≡ c.files
unfolding take_out
take_out-files e c = elim (Option-cases (find_node e c.nodes)) [
  | inl q ↦ rw (q, take_out) refl
  | inr (x, q) ↦ rw (q, take_out) refl
]

-- A file that is not cached is not cached after `set` either.
pub set-absent :
    (f : Bytes) (e : Entry) (c c' : Cache)
    → find_file f c.files ≡ none
    → set e c ≡ some c'
    → find_file f c'.files ≡ none
unfolding set addnode
set-absent f e c c' h r =
    let c1 = take_out e c in
    elim (Option-cases (evict (suc (length c1.nodes)) e.data_size c1)) [
      | inl q ↦ let bad : none ≡ some c' = rw (q, set) at r in absurd (cc)
      | inr (c2, q) ↦
          let same : some (addnode e c2) ≡ some c' = rw (q, set) at r in
          let gone : find_file f c2.files ≡ none =
            evict-absent f (suc (length c1.nodes)) e.data_size c1 c2
              (ap (find_file f) (take_out-files e c) ∙ h) q in
          subst (λ x. find_file f x.files ≡ none) (some_inj same) gone
    ]

take_out-below : (e : Entry) (c : Cache) → (take_out e c).cur_size ≤ c.cur_size
unfolding take_out
take_out-below e c = elim (Option-cases (find_node e c.nodes)) [
  | inl q ↦ rw (q, take_out) (omega arith)
  | inr (x, q) ↦ rw (q, take_out) (omega arith)
]

take_out-cap : (e : Entry) (c : Cache) → (take_out e c).cap ≡ c.cap
unfolding take_out
take_out-cap e c = elim (Option-cases (find_node e c.nodes)) [
  | inl q ↦ rw (q, take_out) refl
  | inr (x, q) ↦ rw (q, take_out) refl
]

-- While there is room, `set` drops no block.
pub set-roomy :
    (e : Entry) (c c' : Cache)
    → c.cur_size + e.data_size ≤ c.cap
    → c.cap < 2 ^ 32
    → set e c ≡ some c'
    → c'.files ≡ c.files
unfolding set addnode
set-roomy e c c' room small r =
    let c1 = take_out e c in
    let fits : ltb c1.cap ((c1.cur_size + e.data_size) % 2 ^ 32) ≡ false =
      ground (arith, take_out-below e c, take_out-cap e c) in
    let done = evict-done (length c1.nodes) e.data_size c1 fits in
    let same : some (addnode e c1) ≡ some c' = rw (done, set) at r in
    sym (ap (λ x. x.files) (some_inj same)) ∙ take_out-files e c
