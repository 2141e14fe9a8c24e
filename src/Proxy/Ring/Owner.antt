-- ===== src/Proxy/Ring/Owner.antt =====
-- The proxy that has a file.
use slsfs.Prelude.{
  subst, ◌∙◌, ◌∙◌, sym, ap, Option-cases, some_inj, Bool-cases, ◌⊎◌, ◌⊎◌, map, All, ◌≡◌, ◌≡◌, List,
  refl, inr, inl, false, true, none, some, ◌∷◌, [],
}
use slsfs.Bytes.{Bytes}
use slsfs.Proxy.Ring.{key_lt, insert_sorted, sort, upper_bound, first, next_proxy, proxy_list}
use slsfs.Proxy.Ring.Order.{
  All-In, In-All, key_lt-antisym, IsSorted, key_lt_irrefl, sort-IsSorted, sort-All, In, In-sort,
}

upper_bound-some :
    (ps : List Bytes) (key o : Bytes)
    → IsSorted ps
    → upper_bound ps key ≡ some o
    → In o ps × (key_lt key o ≡ true) × All (λ e. key_lt key e ≡ true → key_lt e o ≡ false) ps
unfolding upper_bound
upper_bound-some [] key o s e = absurd (cc)
upper_bound-some (p ∷ ps) key o s e = elim (Bool-cases (key_lt key p)) [
  | inl above ↦
      let q : p ≡ o = some_inj (rw above at e) in
      (
        inl (sym q),
        subst (λ x. key_lt key x ≡ true) q above,
        subst (λ x. All (λ e. key_lt key e ≡ true → key_lt e x ≡ false) (p ∷ ps)) q
            ((λ h. key_lt_irrefl p), forget p ps s.0),
      )
  | inr below ↦
      let (i, above, least) = upper_bound-some ps key o s.1 (rw below at e) in
      (inr i, above, ((λ h. absurd (cc)), least))
]
  where
    forget :
        (x : Bytes) (ys : List Bytes)
        → All (λ y. key_lt y x ≡ false) ys
        → All (λ y. key_lt key y ≡ true → key_lt y x ≡ false) ys
    forget x [] a = tt
    forget x (y ∷ ys) a = ((λ h. a.0), forget x ys a.1)

upper_bound-none :
    (ps : List Bytes) (key : Bytes) → upper_bound ps key ≡ none → All (λ e. key_lt key e ≡ false) ps
unfolding upper_bound
upper_bound-none [] key e = tt
upper_bound-none (p ∷ ps) key e = elim (Bool-cases (key_lt key p)) [
  | inl above ↦ let bad : some p ≡ none = rw above at e in absurd (cc)
  | inr below ↦ (below, upper_bound-none ps key (rw below at e))
]

-- The proxy `o` has the key: it is the least of those above it, or, where none is, the least of all.
abbrev pub Owns : List Bytes → Bytes → Bytes → Type 0
Owns ps key o =
    In o ps
    × (((key_lt key o ≡ true) × All (λ e. key_lt key e ≡ true → key_lt e o ≡ false) ps)
        ⊎ (All (λ e. key_lt key e ≡ false) ps × All (λ e. key_lt e o ≡ false) ps))

first-least :
    (ps : List Bytes) (o : Bytes)
    → IsSorted ps
    → first ps ≡ some o
    → In o ps × All (λ e. key_lt e o ≡ false) ps
unfolding first
first-least [] o s e = absurd (cc)
first-least (p ∷ ps) o s e =
    let q : p ≡ o = some_inj e in
    (inl (sym q), subst (λ x. All (λ e. key_lt e x ≡ false) (p ∷ ps)) q (key_lt_irrefl p, s.0))

next_proxy-sorted :
    (ps : List Bytes) (key o : Bytes) → IsSorted ps → next_proxy ps key ≡ some o → Owns ps key o
unfolding next_proxy first
next_proxy-sorted ps key o s e = elim (Option-cases (upper_bound ps key)) [
  | inr (p, q) ↦
      let same : p ≡ o = some_inj (rw (q, next_proxy) at e) in
      let (i, above, least) = upper_bound-some ps key o s (q ∙ ap some same) in
      (i, inl (above, least))
  | inl at_end ↦
      let head : first ps ≡ some o = rw (at_end, next_proxy) at e in
      let (i, least) = first-least ps o s head in (i, inr (upper_bound-none ps key at_end, least))
]

insert_sorted-cons :
    (p : Bytes) (ps : List Bytes) → (x : Bytes) × (xs : List Bytes) × (insert_sorted p ps ≡ x ∷ xs)
unfolding insert_sorted
insert_sorted-cons p [] = (p, [], refl)
insert_sorted-cons p (x ∷ xs) = elim (Bool-cases (key_lt p x)) [
  | inl before ↦ (p, x ∷ xs, rw before refl)
  | inr after ↦ (x, insert_sorted p xs, rw after refl)
]

next_proxy-cons :
    (x key : Bytes) (xs : List Bytes) → (o : Bytes) × (next_proxy (x ∷ xs) key ≡ some o)
unfolding next_proxy first
next_proxy-cons x key xs = elim (Option-cases (upper_bound (x ∷ xs) key)) [
  | inl at_end ↦ (x, rw (at_end, next_proxy) refl)
  | inr (p, q) ↦ (p, rw (q, next_proxy) refl)
]

Owns-sort : (ps : List Bytes) (key o : Bytes) → Owns (sort ps) key o → Owns ps key o
Owns-sort ps key o (i, kind) = (
  In-sort o ps i,
  elim kind [
    | inl (above, least) ↦
        inl (above, sort-All (λ e. key_lt key e ≡ true → key_lt e o ≡ false) ps least)
    | inr (below, least) ↦
        inr (
          sort-All (λ e. key_lt key e ≡ false) ps below,
          sort-All (λ e. key_lt e o ≡ false) ps least,
        )
  ],
)

-- Whatever the order in which ZooKeeper gives the names, as long as there is one, a file has a proxy:
-- the one with the least name above the file's, or the one with the least name if none is above.
pub proxy_of_file :
    (decode : Bytes → Bytes) (child : Bytes) (children : List Bytes) (key : Bytes)
    → (o : Bytes) × (next_proxy (proxy_list decode (child ∷ children)) key ≡ some o)
      × Owns (map decode (child ∷ children)) key o
unfolding proxy_list sort
proxy_of_file decode child children key =
    let ps = map decode (child ∷ children) in
    let (x, xs, e) = insert_sorted-cons (decode child) (sort (map decode children)) in
    let (o, q) = next_proxy-cons x key xs in
    let found : next_proxy (sort ps) key ≡ some o = ap (λ l. next_proxy l key) e ∙ q in
    (o, found, Owns-sort ps key o (next_proxy-sorted (sort ps) key o (sort-IsSorted ps) found))

-- One proxy at most has a key.
Owns-unique : (ps : List Bytes) (key o o' : Bytes) → Owns ps key o → Owns ps key o' → o ≡ o'
Owns-unique ps key o o' (i, kind) (i', kind') = elim kind [
  | inl (above, least) ↦ elim kind' [
    | inl (above', least') ↦
        key_lt-antisym o o'
          (All-In (λ e. key_lt key e ≡ true → key_lt e o' ≡ false) o ps least' i above)
          (All-In (λ e. key_lt key e ≡ true → key_lt e o ≡ false) o' ps least i' above')
    | inr (below', least') ↦
        let no : key_lt key o ≡ false = All-In (λ e. key_lt key e ≡ false) o ps below' i in
        absurd (cc)
  ]
  | inr (below, least) ↦ elim kind' [
    | inl (above', least') ↦
        let no : key_lt key o' ≡ false = All-In (λ e. key_lt key e ≡ false) o' ps below i' in
        absurd (cc)
    | inr (below', least') ↦
        key_lt-antisym o o' (All-In (λ e. key_lt e o' ≡ false) o ps least' i)
          (All-In (λ e. key_lt e o ≡ false) o' ps least i')
  ]
]

-- The proxy that has a key among more proxies has it among fewer, if it is one of them.
Owns-fewer :
    (ps qs : List Bytes) (key o : Bytes)
    → ((x : Bytes) → In x ps → In x qs)
    → In o ps
    → Owns qs key o
    → Owns ps key o
Owns-fewer ps qs key o sub i (j, kind) =
    let fewer : (P : Bytes → Type 0) → All P qs → All P ps =
      λ P a. In-All P ps (λ x k. All-In P x qs a (sub x k)) in
    (
      i,
      elim kind [
        | inl (above, least) ↦
            inl (above, fewer (λ e. key_lt key e ≡ true → key_lt e o ≡ false) least)
        | inr (below, least) ↦
            inr (fewer (λ e. key_lt key e ≡ false) below, fewer (λ e. key_lt e o ≡ false) least)
      ],
    )

-- A proxy that joins moves no file between the others, whatever the orders in which ZooKeeper gives the
-- names before and after, as long as there is one before: where the names after are those before and the
-- new one, each file keeps its proxy or goes to the new one.
pub join_moves_to_new :
    (decode : Bytes → Bytes) (new a b : Bytes) (before after : List Bytes) (key : Bytes)
    → ((x : Bytes)
        → In x (map decode (b ∷ after))
        → (x ≡ decode new) ⊎ In x (map decode (a ∷ before)))
    → ((x : Bytes) → In x (map decode (a ∷ before)) → In x (map decode (b ∷ after)))
    → (next_proxy (proxy_list decode (b ∷ after)) key
        ≡ next_proxy (proxy_list decode (a ∷ before)) key)
      ⊎ (next_proxy (proxy_list decode (b ∷ after)) key ≡ some (decode new))
join_moves_to_new decode new a b before after key only all =
    let (o, found, owns) = proxy_of_file decode a before key in
    let (o', found', owns') = proxy_of_file decode b after key in
    elim (only o' owns'.0) [
      | inl joined ↦ inr (found' ∙ ap some joined)
      | inr old ↦
          let same =
            Owns-unique (map decode (a ∷ before)) key o' o
              (Owns-fewer (map decode (a ∷ before)) (map decode (b ∷ after)) key o' all old owns')
              owns in
          inl (found' ∙ ap some same ∙ sym found)
    ]
