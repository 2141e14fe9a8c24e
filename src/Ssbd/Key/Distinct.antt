-- ===== src/Ssbd/Key/Distinct.antt =====
-- No two of these keys are the same: not for two blocks, nor for two uses of one block.
use slsfs.Prelude.{
  append-nil, inl, ap, [], ap₂, append_assoc, ◌⊎◌, arith, sym, refl, ◌↔◌, ◌∙◌, ◌<◌, inr, ◌≢◌, ◌≡◌,
  ◌++◌, All, List, ◌∷◌, length,
}
use slsfs.Bytes.{Bytes}
use slsfs.Text.{codes, to_string}
use slsfs.Text.Decimal.{IsDigit, to_string-IsDigit, to_string-injective}
use slsfs.Ssbd.Packet.{Header, IsHeader}
use slsfs.Ssbd.Key.{
  pending_data, pending_version, committed_version, as_string, Slot, suffix, slot_key, replica_key,
}

-- A block's key: 32 bytes and a decimal number.
pub record IsKey (k : Bytes) : Type 0 where
  pub name : Bytes
  pub number : Bytes
  pub name_size : length name ≡ 32
  pub number_digits : All IsDigit number
  pub parts : k ≡ name ++ number

abbrev IsSuffix : Bytes → Type 0
IsSuffix [] = Unit {0}
IsSuffix (c ∷ s) = (c < 48) ⊎ (57 < c)

append-injective :
    {A : Type 0} (xs xs' ys ys' : List A)
    → length xs ≡ length xs'
    → xs ++ ys ≡ xs' ++ ys'
    → (xs ≡ xs') × (ys ≡ ys')
append-injective [] [] ys ys' h e = (refl, e)
append-injective [] (x ∷ xs') ys ys' h e = absurd (omega arith)
append-injective (x ∷ xs) [] ys ys' h e = absurd (omega arith)
append-injective (x ∷ xs) (x' ∷ xs') ys ys' h e =
    let (p, q) = append-injective xs xs' ys ys' (omega arith) (cc) in (cc, q)

-- Where the digits end is plain from the text.
digits-injective :
    (ds es s t : Bytes)
    → All IsDigit ds
    → All IsDigit es
    → IsSuffix s
    → IsSuffix t
    → ds ++ s ≡ es ++ t
    → (ds ≡ es) × (s ≡ t)
digits-injective [] [] s t d d' h h' e = (refl, e)
digits-injective [] (x ∷ es) [] t d d' h h' e = cc
digits-injective [] (x ∷ es) (c ∷ s) t d d' h h' e = let q : c ≡ x = cc in absurd (omega arith)
digits-injective (x ∷ ds) [] s [] d d' h h' e = cc
digits-injective (x ∷ ds) [] s (c ∷ t) d d' h h' e = let q : x ≡ c = cc in absurd (omega arith)
digits-injective (x ∷ ds) (y ∷ es) s t d d' h h' e =
    let (p, q) = digits-injective ds es s t d.1 d'.1 h h' (cc) in (cc, q)

key-injective :
    (k j s t : Bytes)
    → IsKey k
    → IsKey j
    → IsSuffix s
    → IsSuffix t
    → k ++ s ≡ j ++ t
    → (k ≡ j) × (s ≡ t)
key-injective k j s t vk vj hs ht e =
    let (p, q) =
      append-injective vk.name vj.name (vk.number ++ s) (vj.number ++ t)
        (vk.name_size ∙ sym vj.name_size)
        (sym (append_assoc vk.name vk.number s)
          ∙ ap (λ x. x ++ s) (sym vk.parts)
          ∙ e
          ∙ ap (λ x. x ++ t) vj.parts
          ∙ append_assoc vj.name vj.number t) in
    let (p', q') =
      digits-injective vk.number vj.number s t vk.number_digits vj.number_digits hs ht q in
    (vk.parts ∙ ap₂ ◌++◌ p p' ∙ sym vj.parts, q')

suffix-IsSuffix : (a : Slot) → IsSuffix (suffix a)
unfolding suffix
suffix-IsSuffix committed_version = inl (omega arith)
suffix-IsSuffix pending_version = inl (omega arith)
suffix-IsSuffix pending_data = inl (omega arith)

suffix-injective : (a b : Slot) → suffix a ≡ suffix b → a ≡ b
unfolding suffix
suffix-injective a b e = ground arith

pub as_string-IsKey : (h : Header) → IsHeader h → IsKey (as_string h)
unfolding as_string
as_string-IsKey h v = record {
  name = h.uuid;
  number = to_string h.blockid;
  name_size = v.uuid_size;
  number_digits = to_string-IsDigit h.blockid;
  parts = refl;
}

-- Two valid headers name the same key exactly when they name the same file and the same block of
-- it.
pub as_string-injective :
    (h h' : Header)
    → IsHeader h
    → IsHeader h'
    → (as_string h ≡ as_string h') ↔ ((h.uuid ≡ h'.uuid) × (h.blockid ≡ h'.blockid))
unfolding as_string
as_string-injective h h' v v' = (
  λ e.
      let (p, q) =
        append-injective h.uuid h'.uuid (to_string h.blockid) (to_string h'.blockid)
          (v.uuid_size ∙ sym v'.uuid_size) e in
      (p, to_string-injective h.blockid h'.blockid v.blockid_fits v'.blockid_fits q),
  λ e. ap₂ (λ u b. u ++ to_string b) e.0 e.1,
)

pub slot_key-ne_key :
    (a b : Slot) (k j : Bytes) → IsKey k → IsKey j → k ≢ j → slot_key a k ≢ slot_key b j
unfolding slot_key
slot_key-ne_key a b k j vk vj ne e =
    ne (key-injective k j (suffix a) (suffix b) vk vj (suffix-IsSuffix a) (suffix-IsSuffix b) e).0

pub slot_key-ne_slot : (a b : Slot) (k : Bytes) → IsKey k → a ≢ b → slot_key a k ≢ slot_key b k
unfolding slot_key
slot_key-ne_slot a b k v ne e = ne (
    suffix-injective a b
      (key-injective k k (suffix a) (suffix b) v v (suffix-IsSuffix a) (suffix-IsSuffix b) e).1)

pub replica_key-ne_key : (k j : Bytes) → IsKey k → IsKey j → replica_key k ≢ j
unfolding replica_key
replica_key-ne_key k j vk vj e =
    let none_left =
      (key-injective k j (codes "repl") [] vk vj (inr (omega arith)) tt
        (e ∙ sym (append-nil j))).1 in
    cc

pub replica_key-injective :
    (k j : Bytes) → IsKey k → IsKey j → replica_key k ≡ replica_key j → k ≡ j
unfolding replica_key
replica_key-injective k j vk vj e =
    (key-injective k j (codes "repl") (codes "repl") vk vj (inr (omega arith)) (inr (omega arith))
      e).0
