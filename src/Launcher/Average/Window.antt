-- ===== src/Launcher/Average/Window.antt =====
-- The sum of the ring is that of its inputs.
use slsfs.Launcher.Average.{get_sma, record_all, record_input, new_sma, Sma}
use slsfs.Prelude.{
  ap, get_or, ◌^◌, ◌==◌, ◌%◌, set, ◌∙◌, ◌/◌, length-replicate, length, ◌≡◌, ◌<◌, length-set, arith,
  ◌+◌, replicate, List, if◌then◌else◌, refl, suc, zero, ◌∷◌, [], ℕ,
}

abbrev pub total : List ℕ → ℕ
total [] = 0
total (x ∷ xs) = x + total xs

total-set :
    (xs : List ℕ) (i v : ℕ) → i < length xs → total (set xs i v) + get_or xs i 0 ≡ total xs + v
total-set [] i v h = absurd (omega arith)
total-set (x ∷ xs) zero v h = omega arith
total-set (x ∷ xs) (suc i) v h = omega (arith, total-set xs i v (omega arith))

total-replicate : (n : ℕ) → total (replicate n 0) ≡ 0
total-replicate zero = refl
total-replicate (suc n) = omega (arith, total-replicate n)

pub record IsSma (s : Sma) : Type 0 where
  pub some_inputs : 0 < s.size
  pub inputs_size : length s.previous_inputs ≡ s.size
  pub index_inside : s.index < s.size
  pub sum_lem : s.sum ≡ total s.previous_inputs % 2 ^ 32

-- The ring starts well-formed.
pub new_sma-IsSma : (n : ℕ) → IsSma (new_sma n)
unfolding new_sma
new_sma-IsSma n = record {
  some_inputs = ground arith;
  inputs_size = ground (arith, length-replicate {A = ℕ} (if n == 0 then 1 else n) 0);
  index_inside = ground arith;
  sum_lem = omega (arith, total-replicate (if n == 0 then 1 else n));
}

pub record_input-IsSma : (x : ℕ) (s : Sma) → IsSma s → IsSma (record_input x s)
unfolding record_input
record_input-IsSma x s i = record {
  some_inputs = i.some_inputs;
  inputs_size = length-set s.previous_inputs s.index x ∙ i.inputs_size;
  index_inside = ground (arith, i.index_inside);
  sum_lem = omega (
    arith,
    total-set s.previous_inputs s.index x (omega (arith, i.index_inside, i.inputs_size)),
    i.sum_lem,
  );
}

record_all-IsSma : (xs : List ℕ) (s : Sma) → IsSma s → IsSma (record_all xs s)
unfolding record_all
record_all-IsSma [] s i = i
record_all-IsSma (x ∷ xs) s i = record_all-IsSma xs (record_input x s) (record_input-IsSma x s i)

-- After any inputs the average is that of the ring's inputs, rounded to the nearest, where their sum
-- and the rounding fit into 32 bits.
pub get_sma-record_all :
    (n : ℕ) (xs : List ℕ)
    → let s = record_all xs (new_sma n) in
      total s.previous_inputs + s.size / 2 < 2 ^ 32
      → get_sma s ≡ (total s.previous_inputs + s.size / 2) / s.size
unfolding get_sma
get_sma-record_all n xs small =
    let s = record_all xs (new_sma n) in
    let i = record_all-IsSma xs (new_sma n) (new_sma-IsSma n) in
    let whole : (s.sum + s.size / 2) % 2 ^ 32 ≡ total s.previous_inputs + s.size / 2 =
      omega (arith, i.sum_lem) in
    ap (λ k. k / s.size) whole
