-- ===== src/Ssbd/Node/View.antt =====
-- What the two databases hold of one block, and how their writes change it.
use slsfs.Prelude.{if_neg, sym, if_pos, ◌≡◌, some}
use slsfs.Bytes.{Bytes}
use slsfs.Ssbd.Kv.{Db}
use slsfs.Ssbd.Key.{replica_key}
use slsfs.Ssbd.Key.Distinct.{IsKey, replica_key-ne_key, replica_key-injective}
use slsfs.Ssbd.Log.View.{LogView, log_view, at, Bytes-discrete}
use slsfs.Ssbd.Spec.{BlockState}
use slsfs.Ssbd.Node.{Node}

module _ (d : Db) where
  open d use {find, put, find-put_self, find-put_ne}

  unfoldable pub view : Node d → Bytes → BlockState
  view n j = record {
    content = find n.db j;
    replica = find n.db (replica_key j);
    log = log_view d n.log j;
  }

  pub view-put_content :
      (n : Node d) (k j v : Bytes)
      → IsKey k
      → IsKey j
      → view (record n { db = put n.db k v }) j
        ≡ at k (λ b. record b { content = some v }) j (view n j)
  unfolding view
  view-put_content n k j v hk hj = elim (Bytes-discrete k j) [
    | yes e ↦ rw (if_pos _ e) (
        rw (← e) (
          rw (
            find-put_self n.db k v,
            find-put_ne n.db k (replica_key k) v (λ q. replica_key-ne_key k k hk hk (sym q)),
          )))
    | no ne ↦ rw (if_neg _ ne) (
        rw (
          find-put_ne n.db k j v ne,
          find-put_ne n.db k (replica_key j) v (λ q. replica_key-ne_key j k hj hk (sym q)),
        ))
  ]

  pub view-put_replica :
      (n : Node d) (k j v : Bytes)
      → IsKey k
      → IsKey j
      → view (record n { db = put n.db (replica_key k) v }) j
        ≡ at k (λ b. record b { replica = some v }) j (view n j)
  unfolding view
  view-put_replica n k j v hk hj = elim (Bytes-discrete k j) [
    | yes e ↦ rw (if_pos _ e) (
        rw (← e) (
          rw (
            find-put_self n.db (replica_key k) v,
            find-put_ne n.db (replica_key k) k v (replica_key-ne_key k k hk hk),
          )))
    | no ne ↦ rw (if_neg _ ne) (
        rw (
          find-put_ne n.db (replica_key k) j v (replica_key-ne_key k j hk hj),
          find-put_ne n.db (replica_key k) (replica_key j) v
              (λ q. ne (replica_key-injective k j hk hj q)),
        ))
  ]

  -- A change of the log alone.
  pub view-log :
      (n : Node d) (log : d.Store) (k j : Bytes) (f : LogView → LogView)
      → log_view d log j ≡ at k f j (log_view d n.log j)
      → view (record n { log = log }) j ≡ at k (λ b. record b { log = f b.log }) j (view n j)
  unfolding view
  view-log n log k j f e = elim (Bytes-discrete k j) [
    | yes q ↦ rw (if_pos _ q) (rw e (rw (if_pos _ q)))
    | no q ↦ rw (if_neg _ q) (rw e (rw (if_neg _ q)))
  ]
