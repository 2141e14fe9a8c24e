-- ===== src/Bytes.antt =====
-- The memory images that `memcpy` moves, and `hton`/`ntoh` of ssbd/leveldb-serializer.hpp and
-- proxy/serializer.hpp, on a little-endian host (the deployment's x86 images).
pub mod Laws
use mathlib.Core.List.{reverse}
use slsfs.Prelude.{
  ◌>>=◌, inr, inl, false, true, ℕ, zero, suc, ◌+◌, ◌*◌, ◌/◌, ◌%◌, ◌^◌, ◌≤◌, ◌<◌, ◌≡◌, refl, sym, ap,
  ◌∙◌, List, [], ◌∷◌, ◌++◌, arith, Option, none, some, if◌then◌else◌, leb, length, length-append,
  take, drop, All, All-append,
}

abbrev pub IsByte : ℕ → Type 0
IsByte b = b < 256

abbrev pub Bytes : Type 0
Bytes = List ℕ

-- The `w` bytes of an integer as they lie in memory, least significant first.
unfoldable pub store : ℕ → ℕ → Bytes
store zero x = []
store (suc w) x = (x % 256) ∷ store w (x / 256)

-- The integer whose bytes these are.
unfoldable pub load : Bytes → ℕ
load [] = 0
load (b ∷ bs) = b + 256 * load bs

-- `hton` and `ntoh` of an integer of `w` bytes turn its bytes round; at one byte they do nothing.
unfoldable pub hton : ℕ → ℕ → ℕ
unfolding store load
hton w x = load (reverse (store w x))

unfoldable pub ntoh : ℕ → ℕ → ℕ
unfolding hton
ntoh w x = hton w x

-- `memcpy` out of a buffer, with the pointer moved on; `none` is a read past the buffer's end.
unfoldable pub fetch : ℕ → Bytes → Option (Bytes × Bytes)
fetch n buf = if leb n (length buf) then some (take n buf, drop n buf) else none
