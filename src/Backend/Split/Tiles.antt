-- ===== src/Backend/Split/Tiles.antt =====
-- The chunks of a range tile it, each inside one block, and no two in the same block.
use native.Mathlib.Nat
use slsfs.Backend.Split.{chunk_data, Bytes, split, Chunk, split_from, chunk_at}
use slsfs.Prelude.{
  take-add, sym, take_all, drop-drop, ◌∙◌, drop, ◌++◌, length, take, ◌⊎◌, ltb→ge, ◌%◌, ltb→lt, ltb,
  Bool-cases, ◌-◌, arith, ◌^◌, ◌+◌, ◌≤◌, ◌*◌, ◌≡◌, ◌<◌, List, refl, suc, zero, inr, inl, ◌∷◌, [], ℕ,
}

-- The chunks cover the file from `pos` up to `end` with neither a gap nor an overlap, and the data
-- from `start` on.
abbrev pub Tiles : ℕ → ℕ → ℕ → ℕ → List Chunk → Type 0
Tiles blocksize pos end start [] = pos ≡ end
Tiles blocksize pos end start (c ∷ cs) =
    (c.blockid * blocksize + c.offset ≡ pos)
    × (c.start ≡ start)
    × (0 < c.size)
    × (c.offset + c.size ≤ blocksize)
    × ((pos + c.size ≡ end) ⊎ (c.offset + c.size ≡ blocksize))
    × Tiles blocksize (pos + c.size) end (start + c.size) cs

-- The turn's chunk, where the loop goes on.
chunk_lem :
    (bs pos end start : ℕ)
    → 0 < bs
    → pos < end
    → let c = chunk_at bs pos end start in
      (c.blockid * bs + c.offset ≡ pos)
      × (0 < c.size)
      × (c.offset + c.size ≤ bs)
      × ((pos + c.size ≡ end) ⊎ (c.offset + c.size ≡ bs))
      × (pos + c.size ≤ end)
unfolding chunk_at
chunk_lem bs pos end start b lt =
    let small = Nat.mod-lt pos b in
    (Nat.div-add-mod' pos bs, omega (arith, small), omega (arith, small), full, omega arith)
  where
    full :
        (pos + (chunk_at bs pos end start).size ≡ end)
        ⊎ ((chunk_at bs pos end start).offset + (chunk_at bs pos end start).size ≡ bs)
    full = ground (arith, Nat.mod-lt pos b)

pub split_from-Tiles :
    (fuel bs pos end start : ℕ)
    → 0 < bs
    → pos ≤ end
    → end < 2 ^ 32
    → start + (end - pos) < 2 ^ 32
    → end - pos ≤ fuel
    → Tiles bs pos end start (split_from fuel bs pos end start)
unfolding split_from chunk_at
split_from-Tiles zero bs pos end start b le fits room enough = omega arith
split_from-Tiles (suc fuel) bs pos end start b le fits room enough =
    elim (Bool-cases (ltb pos end)) [
      | inl on ↦
          let c = chunk_at bs pos end start in
          let (at, some_bytes, inside, full, before) =
            chunk_lem bs pos end start b (ltb→lt pos end on) in
          let p1 : (pos + c.size) % 2 ^ 32 ≡ pos + c.size = omega arith in
          let s1 : (start + c.size) % 2 ^ 32 ≡ start + c.size = omega arith in
          rw on (
            rw p1 (
              rw s1 (
                at,
                refl,
                some_bytes,
                inside,
                full,
                split_from-Tiles fuel bs (pos + c.size) end (start + c.size) b before fits
                    (omega arith) (omega arith),
              )))
      | inr off ↦ rw off (omega (arith, ltb→ge pos end off))
    ]

-- Where no sum wraps, `split` tiles the requested range.
pub split-Tiles :
    (bs pos size : ℕ)
    → 0 < bs
    → pos + size < 2 ^ 32
    → Tiles bs pos (pos + size) 0 (split bs pos size)
unfolding split
split-Tiles bs pos size b fits =
    let whole : (pos + size) % 2 ^ 32 ≡ pos + size = omega arith in
    rw whole (
      split_from-Tiles (pos + size - pos) bs pos (pos + size) 0 b (omega arith) fits (omega arith)
        (omega arith))

-- The chunks' data, one after the other.
unfoldable pub gather : Bytes → List Chunk → Bytes
gather xs [] = []
gather xs (c ∷ cs) = chunk_data xs c ++ gather xs cs

pub Tiles-le : (bs pos end start : ℕ) (cs : List Chunk) → Tiles bs pos end start cs → pos ≤ end
Tiles-le bs pos end start [] t = omega arith
Tiles-le bs pos end start (c ∷ cs) (at, from, some_bytes, inside, full, t) =
    omega (arith, Tiles-le bs (pos + c.size) end (start + c.size) cs t)

pub Tiles-end :
    (bs pos end start : ℕ) (cs : List Chunk) → Tiles bs pos end start cs → pos ≡ end → cs ≡ []
Tiles-end bs pos end start [] t e = refl
Tiles-end bs pos end start (c ∷ cs) (at, from, some_bytes, inside, full, t) e =
    absurd (omega (arith, Tiles-le bs (pos + c.size) end (start + c.size) cs t))

gather-Tiles :
    (xs : Bytes) (bs pos end start : ℕ) (cs : List Chunk)
    → Tiles bs pos end start cs
    → gather xs cs ≡ take (end - pos) (drop start xs)
unfolding gather chunk_data
gather-Tiles xs bs pos end start [] t = let none_left : end - pos ≡ 0 = omega arith in rw none_left
gather-Tiles xs bs pos end start (c ∷ cs) (at, from, some_bytes, inside, full, t) =
    let le = Tiles-le bs (pos + c.size) end (start + c.size) cs t in
    let sum : end - pos ≡ c.size + (end - (pos + c.size)) = omega (arith, le) in
    rw (from, gather)
      (rw (gather-Tiles xs bs (pos + c.size) end (start + c.size) cs t) (
        rw sum (
          rw (← drop-drop start c.size xs)
            (sym (take-add c.size (end - (pos + c.size)) (drop start xs))))))

-- The data of a request's chunks, one after the other, is the request's data, for a positive block
-- size and a range that does not wrap.
pub gather-split :
    (xs : Bytes) (bs pos : ℕ)
    → 0 < bs
    → pos + length xs < 2 ^ 32
    → gather xs (split bs pos (length xs)) ≡ xs
gather-split xs bs pos b fits =
    gather-Tiles xs bs pos (pos + length xs) 0 (split bs pos (length xs))
      (split-Tiles bs pos (length xs) b fits)
    ∙ take_all xs (pos + length xs - pos) (omega arith)
