-- ===== src/Launcher/Transfer.antt =====
-- `get_fileids_from_transfer` of proxy/launcher.hpp and the counts that `on_worker_close` takes from the
-- end of the table which a closing worker sends.
pub mod Files
pub mod Blank
use slsfs.Prelude.{
  refl, inr, inl, false, true, ◌-◌, ◌-◌, ltb, drop, length, List, ◌==◌, take, Option, ℕ, ◌==◌,
  ◌>>=◌, if◌then◌else◌, suc, zero, none, some, ◌∷◌, [],
}
use slsfs.Bytes.{Bytes, load}

-- `std::find (it, end, ' ')`: the bytes from the blank on, or none.
unfoldable pub find_blank : Bytes → Bytes
find_blank [] = []
find_blank (b ∷ bs) = if b == 32 then b ∷ bs else find_blank bs

-- The loop, with the bytes of the table as fuel; each turn takes 33 of them at least. A key that is cut
-- short is undefined behaviour, `none`.
unfoldable pub fileids_from : ℕ → Bytes → Option (List Bytes)
fileids_from zero buf = some []
fileids_from (suc fuel) buf =
    let rest = fileids_from fuel (drop 1 (find_blank (drop 32 buf))) in
    if length buf == 0
    then some []
    else if ltb (length buf) 32
    then none
    else (rest >>= λ keys. some (take 32 buf ∷ keys))

unfoldable pub get_fileids_from_transfer : Bytes → Option (List Bytes)
get_fileids_from_transfer buf = fileids_from (length buf) buf

-- `cache_hits` and `cache_evictions`, the last two words; fewer than 8 bytes are undefined behaviour.
unfoldable pub counts : Bytes → Option (ℕ × ℕ)
counts buf =
    let size = length buf in
    if ltb size 8
    then none
    else some (load (take 4 (drop (size - 8) buf)), load (take 4 (drop (size - 4) buf)))

unfoldable pub without_counts : Bytes → Bytes
without_counts buf = take (length buf - 8) buf
