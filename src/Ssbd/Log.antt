-- ===== src/Ssbd/Log.antt =====
-- ssbd/persistent-log.hpp: the write-ahead log of a block server, beside the main database.
pub mod View
pub mod Ops
use slsfs.Prelude.{
  Option, refl, suc, zero, inr, inl, true, none, some, ◌∷◌, [], not, false, ◌==◌, if◌then◌else◌,
  Bool, ℕ,
}
use slsfs.Bytes.{Bytes}
use slsfs.Text.{codes, to_string, stoll}
use slsfs.Ssbd.Kv.{Db, bytes_or_empty}
use slsfs.Ssbd.Key.{Slot, committed_version, pending_version, pending_data, slot_key}

-- An empty value is version 0; for another, `std::stoll` may throw.
unfoldable pub parsed : Bytes → Option ℕ
parsed [] = some 0
parsed (c ∷ cs) = stoll (c ∷ cs)

module _ (d : Db) where
  open d use {Store, find, put}

  -- `Get` into an empty string.
  unfoldable pub read_slot : Store → Slot → Bytes → Bytes
  unfolding bytes_or_empty
  read_slot s a key = bytes_or_empty (find s (slot_key a key))

  -- The common body of `get_committed_version` and `get_pending_prepare_version`: a value that is no
  -- number is replaced by "0".
  unfoldable pub get_version : Slot → Store → Bytes → ℕ × Store
  get_version a s key = elim (parsed (read_slot s a key)) [
    | some v ↦ (v, s)
    | none ↦ (0, put s (slot_key a key) (codes "0"))
  ]

  unfoldable pub get_committed_version : Store → Bytes → ℕ × Store
  get_committed_version s key = get_version committed_version s key

  unfoldable pub get_pending_prepare_version : Store → Bytes → ℕ × Store
  get_pending_prepare_version s key = get_version pending_version s key

  unfoldable pub get_pending_prepare_data : Store → Bytes → Bytes
  get_pending_prepare_data s key = read_slot s pending_data key

  unfoldable pub put_committed_version : Store → Bytes → ℕ → Store
  put_committed_version s key version = put s (slot_key committed_version key) (to_string version)

  -- The version first, then the data.
  unfoldable pub put_pending_prepare : Store → Bytes → Bytes → ℕ → Store
  put_pending_prepare s key value version =
      put (put s (slot_key pending_version key) (to_string version)) (slot_key pending_data key)
        value

  -- Returns the log and the database that the data is saved to.
  unfoldable pub commit_pending_prepare : Store → Bytes → Store → Store × Store
  commit_pending_prepare s key save_dest =
      let value = get_pending_prepare_data s key in
      let (version, s) = get_pending_prepare_version s key in
      (put_committed_version s key version, put save_dest key value)

  -- `pending == committed` or `pending == 0` means that nothing is pending. The operands are read
  -- from left to right; the second test is made if the first fails.
  unfoldable pub have_pending_log : Store → Bytes → Bool × Store
  have_pending_log s key =
      let (p, s) = get_pending_prepare_version s key in
      let (c, s) = get_committed_version s key in
      let (p', s') = get_pending_prepare_version s key in
      if p == c then (false, s) else (not (p' == 0), s')
