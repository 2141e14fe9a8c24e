-- ===== src/Proxy/Ring/Order.antt =====
-- The order of the proxies' names, and that `sort` respects it.
use slsfs.Prelude.{
  ◌∙◌, sym, ◌∙◌, subst, ap, ◌⊎◌, ◌⊎◌, Bool-cases, All, arith, ◌≡◌, List, ◌≡◌, refl, inr, inl, false,
  true, ◌∷◌, [],
}
use slsfs.Bytes.{Bytes}
use slsfs.Proxy.Ring.{key_lt, insert_sorted, sort}

pub key_lt_irrefl : (xs : Bytes) → key_lt xs xs ≡ false
unfolding key_lt
key_lt_irrefl [] = refl
key_lt_irrefl (x ∷ xs) = ground (arith, key_lt_irrefl xs)

pub key_lt_trans :
    (xs ys zs : Bytes) → key_lt xs ys ≡ true → key_lt ys zs ≡ true → key_lt xs zs ≡ true
unfolding key_lt
key_lt_trans xs ys [] h k = cc
key_lt_trans xs [] (z ∷ zs) h k = cc
key_lt_trans [] (y ∷ ys) (z ∷ zs) h k = refl
key_lt_trans (x ∷ xs) (y ∷ ys) (z ∷ zs) h k = ground (arith, key_lt_trans xs ys zs)

pub key_lt-antisym : (xs ys : Bytes) → key_lt xs ys ≡ false → key_lt ys xs ≡ false → xs ≡ ys
unfolding key_lt
key_lt-antisym [] [] h k = refl
key_lt-antisym [] (y ∷ ys) h k = absurd (cc)
key_lt-antisym (x ∷ xs) [] h k = absurd (cc)
key_lt-antisym (x ∷ xs) (y ∷ ys) h k =
    let head : x ≡ y = ground (arith, h, k) in
    let tail : xs ≡ ys = key_lt-antisym xs ys (ground (arith, h, k)) (ground (arith, h, k)) in
    ap (◌∷◌ x) tail ∙ ap (λ a. a ∷ ys) head

abbrev pub IsSorted : List Bytes → Type 0
IsSorted [] = Unit
IsSorted (x ∷ xs) = All (λ y. key_lt y x ≡ false) xs × IsSorted xs

-- A name that is not below a greater one is not below a smaller one.
key_lt-weaken : (y p x : Bytes) → key_lt p x ≡ true → key_lt y x ≡ false → key_lt y p ≡ false
key_lt-weaken y p x h k = elim (Bool-cases (key_lt y p)) [
  | inr no_lt ↦ no_lt
  | inl yes_lt ↦ let bad : key_lt y x ≡ true = key_lt_trans y p x yes_lt h in cc
]

pub key_lt-asym : (x p : Bytes) → key_lt p x ≡ true → key_lt x p ≡ false
key_lt-asym x p h = key_lt-weaken x p x h (key_lt_irrefl x)

All-weaken :
    (p x : Bytes) (ys : List Bytes)
    → key_lt p x ≡ true
    → All (λ y. key_lt y x ≡ false) ys
    → All (λ y. key_lt y p ≡ false) ys
All-weaken p x [] h a = tt
All-weaken p x (y ∷ ys) h a = (key_lt-weaken y p x h a.0, All-weaken p x ys h a.1)

pub All-insert_sorted :
    (P : Bytes → Type 0) (p : Bytes) (xs : List Bytes) → P p → All P xs → All P (insert_sorted p xs)
unfolding insert_sorted
All-insert_sorted P p [] h a = (h, tt)
All-insert_sorted P p (x ∷ xs) h a = elim (Bool-cases (key_lt p x)) [
  | inl before ↦ rw before (h, a)
  | inr after ↦ rw after (a.0, All-insert_sorted P p xs h a.1)
]

pub insert_sorted-All :
    (P : Bytes → Type 0) (p : Bytes) (xs : List Bytes) → All P (insert_sorted p xs) → P p × All P xs
unfolding insert_sorted
insert_sorted-All P p [] a = a
insert_sorted-All P p (x ∷ xs) a = elim (Bool-cases (key_lt p x)) [
  | inl before ↦ rw before at a
  | inr after ↦
      let a' : P x × All P (insert_sorted p xs) = rw after at a in
      let (h, rest) = insert_sorted-All P p xs a'.1 in (h, (a'.0, rest))
]

insert_sorted-IsSorted : (p : Bytes) (xs : List Bytes) → IsSorted xs → IsSorted (insert_sorted p xs)
unfolding insert_sorted
insert_sorted-IsSorted p [] s = (tt, tt)
insert_sorted-IsSorted p (x ∷ xs) s = elim (Bool-cases (key_lt p x)) [
  | inl before ↦ rw before ((key_lt-asym x p before, All-weaken p x xs before s.0), s)
  | inr after ↦
      rw after (
        All-insert_sorted (λ y. key_lt y x ≡ false) p xs after s.0,
        insert_sorted-IsSorted p xs s.1,
      )
]

pub sort-IsSorted : (ps : List Bytes) → IsSorted (sort ps)
unfolding sort
sort-IsSorted [] = tt
sort-IsSorted (p ∷ ps) = insert_sorted-IsSorted p (sort ps) (sort-IsSorted ps)

pub sort-All : (P : Bytes → Type 0) (ps : List Bytes) → All P (sort ps) → All P ps
unfolding sort
sort-All P [] a = tt
sort-All P (p ∷ ps) a = let (h, rest) = insert_sorted-All P p (sort ps) a in (h, sort-All P ps rest)

abbrev pub In : Bytes → List Bytes → Type 0
In o [] = ⊥
In o (p ∷ ps) = (o ≡ p) ⊎ In o ps

In-insert_sorted : (o p : Bytes) (xs : List Bytes) → In o (insert_sorted p xs) → In o (p ∷ xs)
unfolding insert_sorted
In-insert_sorted o p [] i = i
In-insert_sorted o p (x ∷ xs) i = elim (Bool-cases (key_lt p x)) [
  | inl before ↦ rw before at i
  | inr after ↦
      let i' : (o ≡ x) ⊎ In o (insert_sorted p xs) = rw after at i in
      elim i' [
        | inl e ↦ inr (inl e)
        | inr rest ↦ elim (In-insert_sorted o p xs rest) [ inl e ↦ inl e | inr j ↦ inr (inr j) ]
      ]
]

pub In-sort : (o : Bytes) (ps : List Bytes) → In o (sort ps) → In o ps
unfolding sort
In-sort o [] i = i
In-sort o (p ∷ ps) i = elim (In-insert_sorted o p (sort ps) i) [
  | inl e ↦ inl e
  | inr j ↦ inr (In-sort o ps j)
]

pub All-In : (P : Bytes → Type 0) (o : Bytes) (ps : List Bytes) → All P ps → In o ps → P o
All-In P o [] a i = absurd i
All-In P o (p ∷ ps) a i = elim i [ inl e ↦ subst P (sym e) a.0 | inr rest ↦ All-In P o ps a.1 rest ]

pub In-All : (P : Bytes → Type 0) (ps : List Bytes) → ((o : Bytes) → In o ps → P o) → All P ps
In-All P [] h = tt
In-All P (p ∷ ps) h = (h p (inl refl), In-All P ps (λ o i. h o (inr i)))
