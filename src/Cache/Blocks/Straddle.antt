-- ===== src/Cache/Blocks/Straddle.antt =====
-- Which blocks a request of the cache names, and what a second write of a block leaves there.
use slsfs.Bytes.{Bytes}
use slsfs.Cache.Blocks.{blocksize, Request, get_block_ids, block_ids_from}
use slsfs.Prelude.{
  ◌∙◌, ap, ◌>>=◌, ◌-◌, ◌==◌, ◌%◌, ◌/◌, ◌^◌, arith, ◌+◌, ltb, ◌≡◌, ◌<◌, ◌≤◌, refl, suc, false, true,
  some, ◌∷◌, [], ℕ,
}
use slsfs.Cache.Table.{BlockMap, find_block, emplace_block}

block_ids_from-stop : (fuel pos end : ℕ) → end ≤ pos → block_ids_from (suc fuel) pos end ≡ some []
unfolding block_ids_from
block_ids_from-stop fuel pos end le =
    let stop : ltb pos end ≡ false = ground arith in rw (stop, block_ids_from) refl

block_ids_from-one :
    (fuel pos end : ℕ)
    → pos < end
    → end ≤ pos + blocksize
    → pos + blocksize < 2 ^ 32
    → block_ids_from (suc (suc fuel)) pos end ≡ some (pos / blocksize ∷ [])
unfolding block_ids_from
block_ids_from-one fuel pos end lt le small =
    let go_on : ltb pos end ≡ true = ground arith in
    let next : (pos + blocksize) % 2 ^ 32 ≡ pos + blocksize = omega arith in
    rw (go_on, block_ids_from)
      (ap (λ o. o >>= λ ids. some (pos / blocksize ∷ ids))
        (ap (λ p. block_ids_from (suc fuel) p end) next
          ∙ block_ids_from-stop fuel (pos + blocksize) end le))

-- A request of at most a block's size is taken to lie in the one block in which it starts, also when
-- it goes on into the next.
pub get_block_ids-one :
    (r : Request)
    → 0 < r.size
    → r.size ≤ blocksize
    → r.position + blocksize < 2 ^ 32
    → get_block_ids r ≡ some (r.position / blocksize ∷ [])
unfolding get_block_ids
get_block_ids-one r pos le small =
    let some_bytes : (r.size == 0) ≡ false = ground arith in
    let whole : (r.position + r.size) % 2 ^ 32 ≡ r.position + r.size = omega arith in
    let fuel : r.size + 1 ≡ suc (suc (r.size - 1)) = omega arith in
    rw some_bytes (
      rw whole (
        rw fuel (
          block_ids_from-one (r.size - 1) r.position (r.position + r.size) (omega arith)
            (omega arith) small)))

-- A block that is already there keeps its bytes when it is put again.
pub find_block-emplace_block :
    (b : ℕ) (buf old : Bytes) (blocks : BlockMap)
    → find_block b blocks ≡ some old
    → find_block b (emplace_block b buf blocks) ≡ some old
unfolding emplace_block
find_block-emplace_block b buf old blocks h = rw (h, emplace_block) h
