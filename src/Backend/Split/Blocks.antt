-- ===== src/Backend/Split/Blocks.antt =====
-- No block is named by two chunks of a range, so that a request writes each block once.
use slsfs.Backend.Split.Tiles.{Tiles-end, split-Tiles, Tiles}
use slsfs.Backend.Split.{split, Chunk}
use native.Mathlib.Nat
use slsfs.Prelude.{
  ap, ◌⊎◌, ◌∙◌, arith, ◌≡◌, ◌≤◌, All, ◌^◌, ◌*◌, ◌<◌, ◌+◌, List, inr, inl, ◌∷◌, [], ℕ,
}

-- The chunks lie at or behind position `p` of the file.
abbrev Behind : ℕ → ℕ → List Chunk → Type 0
Behind bs p = All (λ c. p < (c.blockid + 1) * bs)

Behind-weaken : (bs p q : ℕ) (cs : List Chunk) → p ≤ q → Behind bs q cs → Behind bs p cs
Behind-weaken bs p q [] le h = tt
Behind-weaken bs p q (c ∷ cs) le h =
    let first : q < (c.blockid + 1) * bs = h.0 in (omega arith, Behind-weaken bs p q cs le h.1)

succ-mul : (n bs : ℕ) → (n + 1) * bs ≡ n * bs + bs
succ-mul n bs = Nat.add-mul n 1 bs ∙ ap (λ x. n * bs + x) (Nat.one-mul bs)

Tiles-Behind :
    (bs pos end start : ℕ) (cs : List Chunk) → Tiles bs pos end start cs → Behind bs pos cs
Tiles-Behind bs pos end start [] t = tt
Tiles-Behind bs pos end start (c ∷ cs) (at, from, some_bytes, inside, full, t) = (
  omega (arith, succ-mul c.blockid bs),
  Behind-weaken bs pos (pos + c.size) cs (omega arith)
      (Tiles-Behind bs (pos + c.size) end (start + c.size) cs t),
)

-- Each chunk's block comes before the blocks of the later chunks.
abbrev pub Ascending : List Chunk → Type 0
Ascending [] = Unit
Ascending (c ∷ cs) = All (λ c'. c.blockid < c'.blockid) cs × Ascending cs

later : (bs b : ℕ) (cs : List Chunk) → Behind bs ((b + 1) * bs) cs → All (λ c. b < c.blockid) cs
later bs b [] h = tt
later bs b (c ∷ cs) h =
    let after_block : b + 1 < c.blockid + 1 = Nat.lt_of_mul-lt-mul_right bs h.0 in
    (omega arith, later bs b cs h.1)

Tiles-Ascending :
    (bs pos end start : ℕ) (cs : List Chunk) → Tiles bs pos end start cs → Ascending cs
Tiles-Ascending bs pos end start [] t = tt
Tiles-Ascending bs pos end start (c ∷ cs) (at, from, some_bytes, inside, full, t) =
    (next full, Tiles-Ascending bs (pos + c.size) end (start + c.size) cs t)
  where
    next : (pos + c.size ≡ end) ⊎ (c.offset + c.size ≡ bs) → All (λ c'. c.blockid < c'.blockid) cs
    next (inl last) = rw (Tiles-end bs (pos + c.size) end (start + c.size) cs t last) tt
    next (inr boundary) =
        let edge : (c.blockid + 1) * bs ≡ pos + c.size = omega (arith, succ-mul c.blockid bs) in
        later bs c.blockid cs (rw edge (Tiles-Behind bs (pos + c.size) end (start + c.size) cs t))

-- The blocks of a request ascend, so no two of its chunks name the same block.
pub split-Ascending :
    (bs pos size : ℕ) → 0 < bs → pos + size < 2 ^ 32 → Ascending (split bs pos size)
split-Ascending bs pos size b fits =
    Tiles-Ascending bs pos (pos + size) 0 (split bs pos size) (split-Tiles bs pos size b fits)
