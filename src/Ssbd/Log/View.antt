-- ===== src/Ssbd/Log/View.antt =====
-- What the log says of a block, and how each of its operations changes that, for the block itself
-- and for every other one.
use slsfs.Prelude.{
  Option-cases, inr, inl, arith, ◌∷◌, [], sym, ap, ◌||◌, ◌==◌, not, Bool, ◌≢◌, ℕ_discrete, refl,
  none, ◌^◌, some, ◌<◌, ◌≡◌, ℕ,
}
use slsfs.Bytes.{Bytes}
use slsfs.Text.{
  to_unsigned, value, is_digit, magnitude, is_space, skip_space, signed, codes, to_string, stoll,
}
use slsfs.Text.Decimal.{stoll-lt, to_string-cons, stoll-to_string}
use slsfs.Ssbd.Kv.{Db, bytes_or_empty}
use slsfs.Ssbd.Key.{Slot, committed_version, pending_version, pending_data, slot_key}
use slsfs.Ssbd.Key.Distinct.{IsKey, slot_key-ne_key, slot_key-ne_slot}
use mathlib.Core.Logic.{ite, if_pos, if_neg}
use slsfs.Ssbd.Log.{parsed, read_slot}

-- The number that a slot's text stands for.
unfoldable pub version_of : Bytes → ℕ
version_of text = elim (parsed text) [ some v ↦ v | none ↦ 0 ]

pub version_of-zero : version_of (codes "0") ≡ 0
unfolding version_of parsed stoll signed skip_space is_space magnitude is_digit value to_unsigned
version_of-zero = refl

parsed-to_string : (n : ℕ) → n < 2 ^ 32 → parsed (to_string n) ≡ some n
unfolding parsed
parsed-to_string n h = let (c, cs, e) = to_string-cons n in rw e (rw (← e) (stoll-to_string n h))

pub version_of-to_string : (n : ℕ) → n < 2 ^ 32 → version_of (to_string n) ≡ n
unfolding version_of
version_of-to_string n h = rw (parsed-to_string n h, version_of)

pub version_of-none : (t : Bytes) → parsed t ≡ none → version_of t ≡ 0
unfolding version_of
version_of-none t e = rw (e, version_of)

parsed-lt : (t : Bytes) (v : ℕ) → parsed t ≡ some v → v < 2 ^ 32
unfolding parsed
parsed-lt [] v e = ground arith
parsed-lt (c ∷ cs) v e = stoll-lt (c ∷ cs) v e

pub version_of-lt : (t : Bytes) → version_of t < 2 ^ 32
unfolding version_of
version_of-lt t = elim (Option-cases (parsed t)) [
  | inl e ↦ rw (e, version_of) (omega arith)
  | inr (v, e) ↦ rw (e, version_of) (parsed-lt t v e)
]

pub record LogView : Type 0 where
  pub committed : ℕ
  pub pending : ℕ
  pub data_text : Bytes

-- A prepare is pending when its version is neither 0 nor the committed one.
unfoldable pub is_pending : LogView → Bool
is_pending w = not (w.pending == w.committed || w.pending == 0)

unfoldable pub put_slot : Slot → Bytes → LogView → LogView
put_slot committed_version text w = record w { committed = version_of text }
put_slot pending_version text w = record w { pending = version_of text }
put_slot pending_data text w = record w { data_text = text }

unfoldable pub Bytes-discrete : Discrete Bytes
Bytes-discrete = hlevel ℕ_discrete

-- A change of the view at one key only.
abbrev pub at {ℓ} : {W : Type ℓ} → Bytes → (W → W) → Bytes → W → W
at k f j w = ite (Bytes-discrete k j) (f w) w

pub at-at {ℓ} :
    {W : Type ℓ} (k j : Bytes) (f g : W → W) (w : W)
    → at k f j (at k g j w) ≡ at k (λ w. f (g w)) j w
at-at k j f g w = elim (Bytes-discrete k j) [
  | yes e ↦ rw (if_pos _ e, if_pos _ e, if_pos _ e)
  | no ne ↦ rw (if_neg _ ne, if_neg _ ne, if_neg _ ne)
]

pub at-const {ℓ} :
    {W : Type ℓ} (k j : Bytes) (f : W → W) (w : Bytes → W)
    → at k f j (w j) ≡ at k (λ _. f (w k)) j (w j)
at-const k j f w = elim (Bytes-discrete k j) [
  | yes e ↦ rw (if_pos _ e) (rw (if_pos _ e) (ap (λ i. f (w i)) (sym e)))
  | no ne ↦ rw (if_neg _ ne) (rw (if_neg _ ne))
]

pub at-eq {ℓ} :
    {W : Type ℓ} (k j : Bytes) (f g : W → W) (w : W) → (k ≡ j → f w ≡ g w) → at k f j w ≡ at k g j w
at-eq k j f g w h = elim (Bytes-discrete k j) [
  | yes e ↦ rw (if_pos _ e) (rw (if_pos _ e) (h e))
  | no ne ↦ rw (if_neg _ ne) (rw (if_neg _ ne))
]

pub at-id {ℓ} : {W : Type ℓ} (k j : Bytes) (w : W) → at k (λ w. w) j w ≡ w
at-id k j w = elim (Bytes-discrete k j) [ yes e ↦ rw (if_pos _ e) | no ne ↦ rw (if_neg _ ne) ]

module _ (d : Db) where
  open d use {Store, find, put, find-put_self, find-put_ne}

  unfoldable pub log_view : Store → Bytes → LogView
  log_view s j = record {
    committed = version_of (read_slot d s committed_version j);
    pending = version_of (read_slot d s pending_version j);
    data_text = read_slot d s pending_data j;
  }

  read-put_self :
      (s : Store) (a : Slot) (k v : Bytes) → read_slot d (put s (slot_key a k) v) a k ≡ v
  unfolding read_slot bytes_or_empty
  read-put_self s a k v = rw (find-put_self s (slot_key a k) v)

  read-put_ne :
      (s : Store) (a b : Slot) (k j v : Bytes)
      → slot_key a k ≢ slot_key b j
      → read_slot d (put s (slot_key a k) v) b j ≡ read_slot d s b j
  unfolding read_slot
  read-put_ne s a b k j v ne = rw (find-put_ne s (slot_key a k) (slot_key b j) v ne)

  log_view-put_self :
      (s : Store) (a : Slot) (k v : Bytes)
      → IsKey k
      → log_view (put s (slot_key a k) v) k ≡ put_slot a v (log_view s k)
  unfolding log_view put_slot
  log_view-put_self s committed_version k v h = rw (
    read-put_self s committed_version k v,
    read-put_ne s committed_version pending_version k k v (slot_key-ne_slot _ _ k h λ e. cc),
    read-put_ne s committed_version pending_data k k v (slot_key-ne_slot _ _ k h λ e. cc),
  )
  log_view-put_self s pending_version k v h = rw (
    read-put_self s pending_version k v,
    read-put_ne s pending_version committed_version k k v (slot_key-ne_slot _ _ k h λ e. cc),
    read-put_ne s pending_version pending_data k k v (slot_key-ne_slot _ _ k h λ e. cc),
  )
  log_view-put_self s pending_data k v h = rw (
    read-put_self s pending_data k v,
    read-put_ne s pending_data committed_version k k v (slot_key-ne_slot _ _ k h λ e. cc),
    read-put_ne s pending_data pending_version k k v (slot_key-ne_slot _ _ k h λ e. cc),
  )

  log_view-put_ne :
      (s : Store) (a : Slot) (k j v : Bytes)
      → IsKey k
      → IsKey j
      → k ≢ j
      → log_view (put s (slot_key a k) v) j ≡ log_view s j
  unfolding log_view
  log_view-put_ne s a k j v hk hj ne = rw (
    read-put_ne s a committed_version k j v (slot_key-ne_key _ _ k j hk hj ne),
    read-put_ne s a pending_version k j v (slot_key-ne_key _ _ k j hk hj ne),
    read-put_ne s a pending_data k j v (slot_key-ne_key _ _ k j hk hj ne),
  )

  -- One slot of one block changes.
  pub log_view-put :
      (s : Store) (a : Slot) (k j v : Bytes)
      → IsKey k
      → IsKey j
      → log_view (put s (slot_key a k) v) j ≡ at k (put_slot a v) j (log_view s j)
  log_view-put s a k j v hk hj = elim (Bytes-discrete k j) [
    | yes e ↦ rw (if_pos _ e) (rw (← e) (log_view-put_self s a k v hk))
    | no ne ↦ rw (if_neg _ ne) (log_view-put_ne s a k j v hk hj ne)
  ]
