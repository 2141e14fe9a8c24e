-- ===== src/Cache/Lru/Set.antt =====
-- `set` keeps the most recently used blocks that fit.
use slsfs.Cache.Table.{find_file}
use slsfs.Cache.Lru.{
  set, same_entry, addnode, erase_node, take_out, find_node, Cache, Entry, evict,
  delete_entry_from_cache, unsnoc,
}
use slsfs.Prelude.{
  ap₂, some_inj, length-append, ◌∙◌, sym, Bool, Option, ◌%◌, ltb, length, Bool-cases, ap, ◌^◌,
  Option-cases, arith, leb, ◌≡◌, ◌<◌, ◌≤◌, ◌++◌, ◌-◌, ◌+◌, List, if◌then◌else◌, refl, suc, zero,
  inr, inl, false, true, none, some, ◌∷◌, [], ℕ,
}

abbrev pub total : List Entry → ℕ
total [] = 0
total (e ∷ es) = e.data_size + total es

-- The longest run of entries from the front that `room` bytes hold.
abbrev pub fitting : ℕ → List Entry → List Entry
fitting room [] = []
fitting room (e ∷ es) =
    let rest = fitting (room - e.data_size) es in if leb e.data_size room then e ∷ rest else []

total-append : (xs ys : List Entry) → total (xs ++ ys) ≡ total xs + total ys
total-append [] ys = omega arith
total-append (x ∷ xs) ys = omega (arith, total-append xs ys)

fitting-all : (room : ℕ) (es : List Entry) → total es ≤ room → fitting room es ≡ es
fitting-all room [] h = refl
fitting-all room (e ∷ es) h =
    let fits : leb e.data_size room ≡ true = ground arith in
    rw fits (ap (◌∷◌ e) (fitting-all (room - e.data_size) es (omega arith)))

fitting-last :
    (room : ℕ) (es : List Entry) (x : Entry)
    → room < total (es ++ (x ∷ []))
    → fitting room (es ++ (x ∷ [])) ≡ fitting room es
fitting-last room [] x h = let big : leb x.data_size room ≡ false = ground arith in rw big
fitting-last room (e ∷ es) x h = elim (Bool-cases (leb e.data_size room)) [
  | inl on ↦ rw on (ap (◌∷◌ e) (fitting-last (room - e.data_size) es x (ground (arith, on))))
  | inr off ↦ rw off
]

unsnoc-cons :
    (e : Entry) (es : List Entry)
    → (init : List Entry) × (last : Entry) × (unsnoc (e ∷ es) ≡ some (init, last))
      × (e ∷ es ≡ init ++ (last ∷ []))
unfolding unsnoc
unsnoc-cons e [] = ([], e, refl, refl)
unsnoc-cons e (f ∷ es) =
    let (init, last, q, p) = unsnoc-cons f es in
    (
      e ∷ init,
      last,
      ap {B = Option (List Entry × Entry)}
          (elim [ none ↦ some ([], e) | some (i, l) ↦ some (e ∷ i, l) ]) q,
      ap (◌∷◌ e) p,
    )

cap-delete : (e : Entry) (c : Cache) → (delete_entry_from_cache e c).cap ≡ c.cap
unfolding delete_entry_from_cache
cap-delete e c = elim (Option-cases (find_file e.file_key c.files)) [
  | inl q ↦ rw (q, delete_entry_from_cache) refl
  | inr (b, q) ↦ rw (q, delete_entry_from_cache) refl
]

-- The state once the last entry is gone.
dropped : List Entry → Entry → Cache → Cache
dropped init last c = record (delete_entry_from_cache last c) {
  nodes = init;
  cur_size = c.cur_size - last.data_size;
}

pub evict-done :
    (fuel n : ℕ) (c : Cache)
    → ltb c.cap ((c.cur_size + n) % 2 ^ 32) ≡ false
    → evict (suc fuel) n c ≡ some c
unfolding evict
evict-done fuel n c off = rw (off, evict) refl

evict-drop :
    (fuel n : ℕ) (c : Cache) (init : List Entry) (last : Entry)
    → ltb c.cap ((c.cur_size + n) % 2 ^ 32) ≡ true
    → unsnoc c.nodes ≡ some (init, last)
    → evict (suc fuel) n c ≡ evict fuel n (dropped init last c)
unfolding evict dropped
evict-drop fuel n c init last on q = rw (on, evict) (rw q refl)

-- What the loop comes to: the entries that fit beside `n` bytes.
abbrev Evicted : ℕ → ℕ → Cache → Type 0
Evicted fuel n c =
    (c' : Cache) × (evict fuel n c ≡ some c')
    × (c'.nodes ≡ fitting (c.cap - n) c.nodes)
    × (c'.cur_size ≡ total c'.nodes)
    × (c'.cap ≡ c.cap)
    × (c'.cur_size + n ≤ c.cap)

abbrev Evictable : ℕ → ℕ → Cache → Type 0
Evictable fuel n c =
    (c.cur_size ≡ total c.nodes)
    × (c.cap + n < 2 ^ 32)
    × (c.cur_size ≤ c.cap)
    × (n ≤ c.cap)
    × (length c.nodes < fuel)

pub evict_lem : (fuel n : ℕ) (c : Cache) → Evictable fuel n c → Evicted fuel n c
unfolding dropped
evict_lem zero n c (size, small, below, fits, enough) = absurd (omega arith)
evict_lem (suc fuel) n c (size, small, below, fits, enough) =
    by_test (evict_lem fuel n) (ltb c.cap ((c.cur_size + n) % 2 ^ 32)) refl c.nodes refl
  where
    by_test :
        ((c2 : Cache) → Evictable fuel n c2 → Evicted fuel n c2)
        → (t : Bool) → ltb c.cap ((c.cur_size + n) % 2 ^ 32) ≡ t
        → (es : List Entry) → c.nodes ≡ es
        → Evicted (suc fuel) n c
    by_test ih false off es e =
        let holds : c.cur_size + n ≤ c.cap = ground arith in
        (
          c,
          evict-done fuel n c off,
          sym (fitting-all (c.cap - n) c.nodes (omega (arith, holds))),
          size,
          refl,
          holds,
        )
    by_test ih true on [] e = absurd (ground (arith, ap total e))
    by_test ih true on (x ∷ xs) e =
        let (init, last, q, p) = unsnoc-cons x xs in
        let shape : c.nodes ≡ init ++ (last ∷ []) = e ∙ p in
        let sum : total c.nodes ≡ total init + last.data_size =
          omega (arith, ap total shape, total-append init (last ∷ [])) in
        let one_less : length c.nodes ≡ length init + 1 =
          omega (arith, ap length shape, length-append init (last ∷ [])) in
        let over : c.cap < c.cur_size + n = ground arith in
        let c2 = dropped init last c in
        let cap2 : c2.cap ≡ c.cap = cap-delete last c in
        let whole : c.cap - n < total (init ++ (last ∷ [])) = omega (arith, ap total shape) in
        let (c', e', nodes, size', cap', holds) =
          ih c2 (omega arith, omega arith, omega arith, omega arith, omega arith) in
        (
          c',
          evict-drop fuel n c init last on (ap unsnoc e ∙ q) ∙ e',
          nodes
              ∙ ap (λ k. fitting (k - n) init) cap2
              ∙ sym (fitting-last (c.cap - n) init last whole)
              ∙ ap (fitting (c.cap - n)) (sym shape),
          size',
          cap' ∙ cap2,
          omega arith,
        )

-- What every operation of the list keeps.
abbrev pub IsSized : Cache → Type 0
IsSized c = (c.cur_size ≡ total c.nodes) × (c.cur_size ≤ c.cap)

total-erase_node :
    (key : Entry) (es : List Entry) (x : Entry)
    → find_node key es ≡ some x
    → total es ≡ x.data_size + total (erase_node key es)
unfolding find_node erase_node
total-erase_node key [] x h = cc
total-erase_node key (e ∷ es) x h = by_test (total-erase_node key es x) (same_entry key e) refl h
  where
    by_test :
        (find_node key es ≡ some x → total es ≡ x.data_size + total (erase_node key es))
        → (t : Bool) → same_entry key e ≡ t
        → (if t then some e else find_node key es) ≡ some x
        → total (e ∷ es) ≡ x.data_size + total (erase_node key (e ∷ es))
    by_test ih true on q = rw (on, erase_node) (ap (λ y. y.data_size + total es) (some_inj q))
    by_test ih false off q = rw (off, erase_node) (omega (arith, ih q))

erase_node-absent :
    (key : Entry) (es : List Entry) → find_node key es ≡ none → erase_node key es ≡ es
unfolding find_node erase_node
erase_node-absent key [] h = refl
erase_node-absent key (e ∷ es) h = by_test (erase_node-absent key es) (same_entry key e) refl h
  where
    by_test :
        (find_node key es ≡ none → erase_node key es ≡ es)
        → (t : Bool) → same_entry key e ≡ t
        → (if t then some e else find_node key es) ≡ none
        → erase_node key (e ∷ es) ≡ e ∷ es
    by_test ih true on q = cc
    by_test ih false off q = rw (off, erase_node) (ap (◌∷◌ e) (ih q))

take_out-IsSized :
    (key : Entry) (c : Cache)
    → IsSized c
    → IsSized (take_out key c)
      × ((take_out key c).nodes ≡ erase_node key c.nodes)
      × ((take_out key c).cap ≡ c.cap)
unfolding take_out
take_out-IsSized key c (size, below) = elim (Option-cases (find_node key c.nodes)) [
  | inl q ↦ rw (q, take_out) ((size, below), sym (erase_node-absent key c.nodes q), refl)
  | inr (x, q) ↦
      let sum = total-erase_node key c.nodes x q in
      rw (q, take_out) ((omega (arith, sum), omega (arith, sum)), refl, refl)
]

-- Setting a block that the cache can hold: the block comes to the front, behind it the most recently
-- used of the others that fit beside it, in their order, and the sizes stay within the capacity.
pub set_lem :
    (key : Entry) (c : Cache)
    → IsSized c
    → key.data_size ≤ c.cap
    → c.cap + key.data_size < 2 ^ 32
    → (c' : Cache) × (set key c ≡ some c')
      × (c'.nodes ≡ key ∷ fitting (c.cap - key.data_size) (erase_node key c.nodes))
      × IsSized c'
      × (c'.cap ≡ c.cap)
unfolding set addnode
set_lem key c sized fits small =
    let ((size, below), nodes, cap) = take_out-IsSized key c sized in
    let c1 = take_out key c in
    let (c2, e, kept, size2, cap2, room) =
      evict_lem (suc (length c1.nodes)) key.data_size c1
        (size, omega arith, below, omega arith, omega arith) in
    (
      addnode key c2,
      rw (e, set) refl,
      ap (◌∷◌ key) (kept ∙ ap₂ (λ k es. fitting (k - key.data_size) es) cap nodes),
      (omega arith, omega arith),
      cap2 ∙ cap,
    )
