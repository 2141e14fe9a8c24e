-- ===== src/Ssbd/Kv.antt =====
-- LevelDB, as far as ssbd/ uses it: a store of byte strings under byte strings. It is not part of
-- the repository, so it is a parameter: `Db`, with the two laws of an open and healthy database.
use slsfs.Prelude.{◌≢◌, none, some, ◌≡◌, [], Option}
use slsfs.Bytes.{Bytes}

pub record Db : Type 1 where
  pub Store : Type 0
  pub find : Store → Bytes → Option Bytes
  pub put : Store → Bytes → Bytes → Store
  pub find-put_self : (s : Store) (k v : Bytes) → find (put s k v) k ≡ some v
  pub find-put_ne : (s : Store) (k j v : Bytes) → k ≢ j → find (put s k v) j ≡ find s j

-- `Get` into an empty string: a missing key leaves the string empty.
unfoldable pub bytes_or_empty : Option Bytes → Bytes
bytes_or_empty none = []
bytes_or_empty (some v) = v
