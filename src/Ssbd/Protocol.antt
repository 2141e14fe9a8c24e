-- ===== src/Ssbd/Protocol.antt =====
-- Sequences of messages to one block server, as its connections deliver them one after another.
pub mod Track
pub mod Commit
pub mod Pending
pub mod Write
pub mod Reply
pub mod Safety
use slsfs.Prelude.{
  ite, Option, List, ◌>>=◌, if◌then◌else◌, refl, suc, zero, inr, inl, false, true, none, some, ◌∷◌,
  [], ℕ,
}
use slsfs.Bytes.{Bytes}
use slsfs.Ssbd.Packet.{Header, IsHeader}
use slsfs.Ssbd.Kv.{Db}
use slsfs.Ssbd.Key.{as_string}
use slsfs.Ssbd.Log.View.{Bytes-discrete}
use slsfs.Ssbd.Node.{Node, Outcome, start_read_header}
use slsfs.Ssbd.Spec.{BlockState, step}

abbrev pub Message : Type 0
Message = Header × Bytes

-- Each message in turn; `none` as soon as one is undefined behaviour.
unfoldable pub run : (d : Db) → Node d → List Message → Option (Node d × List Outcome)
run d n [] = some (n, [])
run d n ((h, body) ∷ ms) = do
  (n', o) ← start_read_header d n h body
  (n'', os) ← run d n' ms
  some (n'', o ∷ os)

abbrev pub after : BlockState → Option (BlockState × Outcome) → BlockState
after b none = b
after b (some (b', o)) = b'

-- The messages that name block `j`, applied to its state by the specification.
unfoldable pub track : Bytes → BlockState → List Message → BlockState
track j b [] = b
track j b ((h, body) ∷ ms) =
    track j (ite (Bytes-discrete (as_string h) j) (after b (step h body b)) b) ms
