-- ===== src/Ssbd/Block/Content.antt =====
-- What a written block holds, byte by byte, and when reading and writing stay inside their buffers.
use slsfs.Prelude.{
  get_or-ge, get_or-drop, ltb, get_or-replicate, ◌&&◌, list_ext, get_or-take, ap, min, leb,
  get_or-append, ◌∙◌, ◌≤◌, get_or, length-drop, ◌%◌, length-replicate, length-take, ◌-◌, replicate,
  drop, length-append, ◌^◌, ◌++◌, arith, ◌<◌, ◌≡◌, take, ◌+◌, max, length, if◌then◌else◌, some, ℕ,
}
use slsfs.Bytes.{Bytes}
use slsfs.Ssbd.Block.{resize, copy_into, overwrite, read_block}

pub length-resize : (n : ℕ) (xs : Bytes) → length (resize n xs) ≡ n
unfolding resize
length-resize n xs = omega (
  arith,
  length-append (take n xs) (replicate (n - length xs) 0),
  length-take n xs,
  length-replicate {A = ℕ} (n - length xs) 0,
)

-- The new block: as long as both the old one and the write reach, and nothing of the old one lost
-- outside the written range.
pub written : Bytes → ℕ → Bytes → Bytes
unfolding resize
written old pos body =
    let room = resize (max (pos + length body) (length old)) old in
    take pos room ++ (body ++ drop (pos + length body) room)

resize_fits :
    (old : Bytes) (pos n : ℕ)
    → pos + n < 2 ^ 32
    → length old < 2 ^ 32
    → max ((pos + n) % 2 ^ 32) (length old % 2 ^ 32) ≡ max (pos + n) (length old)
resize_fits old pos n h k = omega arith

-- Where no 32-bit sum wraps, the write stays inside the resized block.
pub overwrite_lem :
    (old : Bytes) (pos : ℕ) (body : Bytes)
    → pos + length body < 2 ^ 32
    → length old < 2 ^ 32
    → overwrite old pos (length body) body ≡ some (written old pos body)
unfolding overwrite copy_into written
overwrite_lem old pos body h k =
    rw (resize_fits old pos (length body) h k)
      (ground (arith, length-resize (max (pos + length body) (length old)) old))

pub length-written :
    (old : Bytes) (pos : ℕ) (body : Bytes)
    → length (written old pos body) ≡ max (pos + length body) (length old)
unfolding written
length-written old pos body =
    let room = resize (max (pos + length body) (length old)) old in
    omega (
      arith,
      length-append (take pos room) (body ++ drop (pos + length body) room),
      length-append body (drop (pos + length body) room),
      length-take pos room,
      length-drop (pos + length body) room,
      length-resize (max (pos + length body) (length old)) old,
    )

get_or-resize :
    (n : ℕ) (xs : Bytes) (i : ℕ) → length xs ≤ n → get_or (resize n xs) i 0 ≡ get_or xs i 0
unfolding resize
get_or-resize n xs i h = ground (
  arith,
  get_or-append (take n xs) (replicate (n - length xs) 0) i 0,
  get_or-take n xs i 0,
  get_or-replicate {A = ℕ} (n - length xs) (i - length (take n xs)) 0,
  length-take n xs,
  get_or-ge xs i 0,
)

-- Byte `i` of the new block: of the body in the written range, else of the old block, and 0 where
-- that has none.
pub get_or-written :
    (old : Bytes) (pos : ℕ) (body : Bytes) (i : ℕ)
    → get_or (written old pos body) i 0
      ≡ (if leb pos i && ltb i (pos + length body) then get_or body (i - pos) 0 else get_or old i 0)
unfolding written
get_or-written old pos body i =
    let n = max (pos + length body) (length old) in
    let room = resize n old in
    let tail = drop (pos + length body) room in
    ground (
      arith,
      get_or-append (take pos room) (body ++ tail) i 0,
      get_or-append body tail (i - length (take pos room)) 0,
      get_or-take pos room i 0,
      get_or-drop (pos + length body) room (i - length (take pos room) - length body) 0,
      get_or-resize n old i,
      get_or-resize n old (pos + length body + (i - length (take pos room) - length body)),
      length-take pos room,
      length-resize n old,
    )

-- What a read returns where it starts inside the block or at its end: `size` bytes, the block's own
-- and zeros behind them.
pub read_block_lem :
    (block : Bytes) (pos size : ℕ)
    → pos ≤ length block
    → length block < 2 ^ 64
    → (r : Bytes) × (read_block block pos size ≡ some r)
      × (length r ≡ size)
      × ((i : ℕ) → i < size → get_or r i 0 ≡ get_or block (pos + i) 0)
unfolding read_block
read_block_lem block pos size h k =
    let n = min (length block - pos) size in
    let room = take n (drop pos block) in
    (
      room ++ replicate (size - n) 0,
      ground arith,
      omega (
        arith,
        length-append room (replicate (size - n) 0),
        length-take n (drop pos block),
        length-drop pos block,
        length-replicate {A = ℕ} (size - n) 0,
      ),
      λ i lt. ground (
        arith,
        get_or-append room (replicate (size - n) 0) i 0,
        get_or-take n (drop pos block) i 0,
        get_or-drop pos block i 0,
        get_or-replicate {A = ℕ} (size - n) (i - length room) 0,
        length-take n (drop pos block),
        length-drop pos block,
        get_or-ge block (pos + i) 0,
      ),
    )

-- A read of the range that was written gives back what was written, where no 32-bit sum wraps.
pub read_block-written :
    (old : Bytes) (pos : ℕ) (body : Bytes)
    → pos + length body < 2 ^ 32
    → length old < 2 ^ 32
    → read_block (written old pos body) pos (length body) ≡ some body
read_block-written old pos body h k =
    let block = written old pos body in
    let l = length-written old pos body in
    let (r, e, size, bytes) =
      read_block_lem block pos (length body) (omega (arith, l)) (omega (arith, l)) in
    e
    ∙ ap some (
        list_ext r body 0 size λ i lt.
          bytes i (omega (arith, size))
          ∙ ground (arith, get_or-written old pos body (pos + i), size))

-- A write of at most the announced size stays inside its buffer.
pub overwrite_safe :
    (old : Bytes) (pos n : ℕ) (body : Bytes)
    → length body ≤ n
    → pos + n < 2 ^ 32
    → length old < 2 ^ 32
    → (block : Bytes) × (overwrite old pos n body ≡ some block)
unfolding overwrite copy_into
overwrite_safe old pos n body short h k =
    let room = resize (max (pos + n) (length old)) old in
    (
      take pos room ++ (body ++ drop (pos + length body) room),
      rw (resize_fits old pos n h k)
          (ground (arith, length-resize (max (pos + n) (length old)) old)),
    )

-- Below its new length a buffer that is resized keeps its bytes, and has zeros behind them.
pub get_or-resize_lt :
    (n : ℕ) (xs : Bytes) (i : ℕ) → i < n → get_or (resize n xs) i 0 ≡ get_or xs i 0
unfolding resize
get_or-resize_lt n xs i h = ground (
  arith,
  get_or-append (take n xs) (replicate (n - length xs) 0) i 0,
  get_or-take n xs i 0,
  get_or-replicate {A = ℕ} (n - length xs) (i - length (take n xs)) 0,
  length-take n xs,
  get_or-ge xs i 0,
)
