-- ===== src/Backend/Split.antt =====
-- The loop that `start_2pc_prepare`, `start_2pc_commit`, `start_replication` and `start_read` share:
-- a range of the file, cut at the boundaries of its blocks.
pub mod Tiles
pub mod Blocks
use slsfs.Bytes.{Bytes}
use slsfs.Prelude.{
  ◌-◌, ltb, ◌^◌, drop, min, ◌+◌, ◌%◌, take, ◌/◌, List, ◌>>=◌, if◌then◌else◌, refl, suc, zero, inr,
  inl, false, true, none, some, ◌∷◌, [], ℕ,
}

-- One turn of the loop; `start` is `buffer_pointer_offset`.
pub record Chunk : Type 0 where
  pub blockid : ℕ
  pub offset : ℕ
  pub size : ℕ
  pub start : ℕ

unfoldable pub chunk_at : ℕ → ℕ → ℕ → ℕ → Chunk
chunk_at blocksize currentpos endpos start = record {
  blockid = currentpos / blocksize;
  offset = currentpos % blocksize;
  size = min (endpos - currentpos) (blocksize - currentpos % blocksize);
  start = start;
}

-- `for (currentpos = realpos; currentpos < endpos;)`, where every turn moves on by at least one
-- byte. The sums are in `std::uint32_t`.
unfoldable pub split_from : ℕ → ℕ → ℕ → ℕ → ℕ → List Chunk
split_from zero blocksize currentpos endpos start = []
split_from (suc fuel) blocksize currentpos endpos start =
    let c = chunk_at blocksize currentpos endpos start in
    let rest =
      split_from fuel blocksize ((currentpos + c.size) % 2 ^ 32) endpos
        ((start + c.size) % 2 ^ 32) in
    if ltb currentpos endpos then c ∷ rest else []

-- `endpos = realpos + input.size()`, in `std::uint32_t`. The fuel is the number of bytes up to it.
unfoldable pub split : ℕ → ℕ → ℕ → List Chunk
split blocksize realpos size =
    let endpos = (realpos + size) % 2 ^ 32 in
    split_from (endpos - realpos) blocksize realpos endpos 0

-- The bytes that a chunk takes from the request's data.
unfoldable pub chunk_data : Bytes → Chunk → Bytes
chunk_data xs c = take c.size (drop c.start xs)
