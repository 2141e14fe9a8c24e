-- ===== src/Ssbd/Block.antt =====
-- ssbd/rawblocks.hpp, and the way ssbd/main.cpp writes a request's bytes over an old block.
-- `none` is undefined behaviour: `std::copy` outside a buffer.
pub mod Content
use slsfs.Prelude.{
  ◌^◌, ◌%◌, ◌-◌, drop, ◌+◌, length, replicate, ◌++◌, min, max, leb, Option, take, if◌then◌else◌,
  refl, suc, zero, inr, inl, false, true, none, some, ◌∷◌, [], ℕ,
}
use slsfs.Bytes.{Bytes}

-- `std::string::resize`: cut, or filled up with zero bytes.
unfoldable pub resize : ℕ → Bytes → Bytes
resize n xs = take n xs ++ replicate (n - length xs) 0

-- `std::copy(src.begin(), src.end(), std::next(dst.begin(), pos))`
unfoldable pub copy_into : Bytes → ℕ → Bytes → Option Bytes
copy_into dst pos src =
    if leb (pos + length src) (length dst)
    then some (take pos dst ++ (src ++ drop (pos + length src) dst))
    else none

-- The block is resized to `max<uint32_t>(position + datasize, old_block.size())`, a sum and a
-- conversion in `std::uint32_t`, and then written to.
unfoldable pub overwrite : Bytes → ℕ → ℕ → Bytes → Option Bytes
overwrite old position datasize body =
    copy_into (resize (max ((position + datasize) % 2 ^ 32) (length old % 2 ^ 32)) old) position
      body

-- `rawblocks::read` into a buffer of `size` zero bytes: `min(buf_.size() - position, size)` bytes are
-- copied, where the difference is in `std::size_t` and wraps.
unfoldable pub read_block : Bytes → ℕ → ℕ → Option Bytes
read_block block position size =
    let n = min ((length block + 2 ^ 64 - position) % 2 ^ 64) size in
    if leb (position + n) (length block)
    then some (take n (drop position block) ++ replicate (size - n) 0)
    else none
