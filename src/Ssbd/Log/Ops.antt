-- ===== src/Ssbd/Log/Ops.antt =====
-- The operations of the log, seen at a block.
use slsfs.Prelude.{
  ap, ◌∙◌, if_neg, ◌^◌, arith, if_pos, Option-cases, ◌<◌, ◌≢◌, ◌≡◌, refl, inr, inl, none, ℕ,
}
use slsfs.Bytes.{Bytes}
use slsfs.Text.{codes, to_string}
use slsfs.Ssbd.Kv.{Db}
use slsfs.Ssbd.Key.{Slot, committed_version, pending_version, pending_data, slot_key}
use slsfs.Ssbd.Key.Distinct.{IsKey}
use slsfs.Ssbd.Log.{
  parsed, read_slot, get_version, get_committed_version, get_pending_prepare_version,
  put_committed_version, put_pending_prepare, have_pending_log,
}
use slsfs.Ssbd.Log.View.{
  version_of, version_of-zero, version_of-none, version_of-to_string, put_slot, at, at-at,
  Bytes-discrete, is_pending, log_view, log_view-put,
}

module _ (d : Db) where
  open d use {Store, find, put}

  -- Reading a version gives the number that its text stands for, and changes no block's view: where
  -- the text is no number, "0" takes its place.
  pub get_version-fst :
      (a : Slot) (s : Store) (k : Bytes) → (get_version d a s k).0 ≡ version_of (read_slot d s a k)
  unfolding get_version version_of
  get_version-fst a s k = elim (Option-cases (parsed (read_slot d s a k))) [
    | inl e ↦ rw (e, get_version, version_of)
    | inr (v, e) ↦ rw (e, get_version, version_of)
  ]

  -- "0" in place of what is no number stands for the same version.
  put_slot-repair :
      (a : Slot) (s : Store) (k : Bytes)
      → a ≢ pending_data
      → parsed (read_slot d s a k) ≡ none
      → put_slot a (codes "0") (log_view d s k) ≡ log_view d s k
  unfolding put_slot log_view
  put_slot-repair committed_version s k ne e =
      rw (version_of-zero, version_of-none (read_slot d s committed_version k) e)
  put_slot-repair pending_version s k ne e =
      rw (version_of-zero, version_of-none (read_slot d s pending_version k) e)
  put_slot-repair pending_data s k ne e = absurd (ne refl)

  pub log_view-get_version :
      (a : Slot) (s : Store) (k j : Bytes)
      → a ≢ pending_data
      → IsKey k
      → IsKey j
      → log_view d (get_version d a s k).1 j ≡ log_view d s j
  unfolding get_version
  log_view-get_version a s k j ne hk hj = elim (Option-cases (parsed (read_slot d s a k))) [
    | inl e ↦ rw (e, get_version) (log_view-put d s a k j (codes "0") hk hj ∙ repaired e)
    | inr (v, e) ↦ rw (e, get_version)
  ]
    where
      repaired :
          parsed (read_slot d s a k) ≡ none
          → at k (put_slot a (codes "0")) j (log_view d s j) ≡ log_view d s j
      repaired e = elim (Bytes-discrete k j) [
        | yes q ↦ rw (if_pos _ q) (rw (← q) (put_slot-repair a s k ne e))
        | no q ↦ rw (if_neg _ q)
      ]

  -- The log's own operations, seen at a block.
  pub log_view-put_committed :
      (s : Store) (k j : Bytes) (v : ℕ)
      → IsKey k
      → IsKey j
      → v < 2 ^ 32
      → log_view d (put_committed_version d s k v) j
        ≡ at k (λ w. record w { committed = v }) j (log_view d s j)
  unfolding put_committed_version put_slot
  log_view-put_committed s k j v hk hj h =
      rw (log_view-put d s committed_version k j (to_string v) hk hj, version_of-to_string v h)

  pub log_view-put_pending :
      (s : Store) (k j value : Bytes) (v : ℕ)
      → IsKey k
      → IsKey j
      → v < 2 ^ 32
      → log_view d (put_pending_prepare d s k value v) j
        ≡ at k (λ w. record w { pending = v; data_text = value }) j (log_view d s j)
  unfolding put_pending_prepare put_slot
  log_view-put_pending s k j value v hk hj h =
      log_view-put d (put s (slot_key pending_version k) (to_string v)) pending_data k j value hk hj
      ∙ ap (at k (put_slot pending_data value) j)
          (log_view-put d s pending_version k j (to_string v) hk hj)
      ∙ at-at k j (put_slot pending_data value) (put_slot pending_version (to_string v))
          (log_view d s j)
      ∙ rw (version_of-to_string v h)

  pub pending-fst :
      (s : Store) (k : Bytes) → (get_pending_prepare_version d s k).0 ≡ (log_view d s k).pending
  unfolding get_pending_prepare_version log_view
  pending-fst s k = get_version-fst pending_version s k

  pub committed-fst :
      (s : Store) (k : Bytes) → (get_committed_version d s k).0 ≡ (log_view d s k).committed
  unfolding get_committed_version log_view
  committed-fst s k = get_version-fst committed_version s k

  pub log_view-get_pending :
      (s : Store) (k j : Bytes)
      → IsKey k
      → IsKey j
      → log_view d (get_pending_prepare_version d s k).1 j ≡ log_view d s j
  unfolding get_pending_prepare_version
  log_view-get_pending s k j hk hj = log_view-get_version pending_version s k j (λ e. cc) hk hj

  pub log_view-get_committed :
      (s : Store) (k j : Bytes)
      → IsKey k
      → IsKey j
      → log_view d (get_committed_version d s k).1 j ≡ log_view d s j
  unfolding get_committed_version
  log_view-get_committed s k j hk hj = log_view-get_version committed_version s k j (λ e. cc) hk hj

  pub have_pending-fst :
      (s : Store) (k : Bytes) → IsKey k → (have_pending_log d s k).0 ≡ is_pending (log_view d s k)
  unfolding have_pending_log is_pending
  have_pending-fst s k h =
      let s1 = (get_pending_prepare_version d s k).1 in
      let s2 = (get_committed_version d s1 k).1 in
      ground (
        arith,
        pending-fst s k,
        committed-fst s1 k,
        pending-fst s2 k,
        log_view-get_pending s k k h h,
        log_view-get_committed s1 k k h h,
      )

  pub log_view-have_pending :
      (s : Store) (k j : Bytes)
      → IsKey k
      → IsKey j
      → log_view d (have_pending_log d s k).1 j ≡ log_view d s j
  unfolding have_pending_log
  log_view-have_pending s k j hk hj =
      let s1 = (get_pending_prepare_version d s k).1 in
      let s2 = (get_committed_version d s1 k).1 in
      ground (
        arith,
        log_view-get_pending s k j hk hj,
        log_view-get_committed s1 k j hk hj,
        log_view-get_pending s2 k j hk hj,
      )
