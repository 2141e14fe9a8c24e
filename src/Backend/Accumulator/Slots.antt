-- ===== src/Backend/Accumulator/Slots.antt =====
-- The places of the accumulator: which of them wait, and what the others hold.
use slsfs.Backend.Accumulator.{BufStat, fill, all_ready, collect_ready}
use slsfs.Bytes.{Bytes}
use slsfs.Prelude.{
  ap₂, ap, arith, not, ◌+◌, ◌≡◌, length, map, ◌==◌, get_or, Bool, ◌+◌, ◌≡◌, ◌++◌, ◌<◌, ◌<◌,
  replicate, List, if◌then◌else◌, refl, ℕ, suc, zero, true, false, ◌∷◌, [],
}

abbrev pub joined : List Bytes → Bytes
joined [] = []
joined (d ∷ ds) = d ++ joined ds

abbrev pub done : Bytes → BufStat
done d = record { ready = true; buf = d }

-- What is ready is the block's data.
abbrev pub Filled : List Bytes → List BufStat → Type 0
Filled [] [] = Unit
Filled [] (s ∷ ss) = ⊥
Filled (d ∷ ds) [] = ⊥
Filled (d ∷ ds) (s ∷ ss) = (s.ready ≡ true → s ≡ done d) × Filled ds ss

abbrev pub missing : List BufStat → ℕ
missing [] = 0
missing (s ∷ ss) = (if s.ready then 0 else 1) + missing ss

abbrev pub open_at : ℕ → List BufStat → Bool
open_at i [] = false
open_at zero (s ∷ ss) = not s.ready
open_at (suc i) (s ∷ ss) = open_at i ss

pub fill-Filled :
    (i : ℕ) (ds : List Bytes) (ss : List BufStat)
    → Filled ds ss
    → Filled ds (fill i (get_or ds i []) ss)
unfolding fill
fill-Filled i [] [] h = tt
fill-Filled i [] (s ∷ ss) h = absurd h
fill-Filled i (d ∷ ds) [] h = absurd h
fill-Filled zero (d ∷ ds) (s ∷ ss) h = ((λ e. refl), h.1)
fill-Filled (suc i) (d ∷ ds) (s ∷ ss) h = (h.0, fill-Filled i ds ss h.1)

pub fill-missing :
    (i : ℕ) (d : Bytes) (ss : List BufStat)
    → open_at i ss ≡ true
    → missing ss ≡ suc (missing (fill i d ss))
unfolding fill
fill-missing i d [] h = ground arith
fill-missing zero d (s ∷ ss) h = ground arith
fill-missing (suc i) d (s ∷ ss) h = ground (arith, fill-missing i d ss h)

pub fill-open :
    (i j : ℕ) (d : Bytes) (ss : List BufStat)
    → (i == j) ≡ false
    → open_at j ss ≡ true
    → open_at j (fill i d ss) ≡ true
unfolding fill
fill-open i j d [] ne h = h
fill-open zero zero d (s ∷ ss) ne h = ground arith
fill-open zero (suc j) d (s ∷ ss) ne h = h
fill-open (suc i) zero d (s ∷ ss) ne h = h
fill-open (suc i) (suc j) d (s ∷ ss) ne h = fill-open i j d ss (ground arith) h

pub all_ready-missing : (ss : List BufStat) → all_ready ss ≡ (missing ss == 0)
unfolding all_ready
all_ready-missing [] = refl
all_ready-missing (s ∷ ss) = ground (arith, all_ready-missing ss)

pub Filled-done :
    (ds : List Bytes) (ss : List BufStat) → Filled ds ss → missing ss ≡ 0 → ss ≡ map done ds
Filled-done [] [] h e = refl
Filled-done [] (s ∷ ss) h e = absurd h
Filled-done (d ∷ ds) [] h e = absurd h
Filled-done (d ∷ ds) (s ∷ ss) h e =
    let is_ready : s.ready ≡ true = ground (arith, e) in
    let rest : missing ss ≡ 0 = ground (arith, e) in
    ap₂ (λ a l. a ∷ l) (h.0 is_ready) (Filled-done ds ss h.1 rest)

pub collect_ready-done : (ds : List Bytes) → collect_ready (map done ds) ≡ joined ds
unfolding collect_ready
collect_ready-done [] = refl
collect_ready-done (d ∷ ds) = ap (λ l. d ++ l) (collect_ready-done ds)

abbrev pub nothing_yet : BufStat
nothing_yet = record { ready = false; buf = [] }

pub Filled-start : (ds : List Bytes) → Filled ds (replicate (length ds) nothing_yet)
Filled-start [] = tt
Filled-start (d ∷ ds) = ((λ e. ground (arith, e)), Filled-start ds)

pub missing-start : (n : ℕ) → missing (replicate n nothing_yet) ≡ n
missing-start zero = refl
missing-start (suc n) = ground (arith, missing-start n)

pub open-start : (n i : ℕ) → i < n → open_at i (replicate n nothing_yet) ≡ true
open-start zero i lt = absurd (omega arith)
open-start (suc n) zero lt = refl
open-start (suc n) (suc i) lt = open-start n i (omega arith)
