-- ===== src/Launcher/Average.antt =====
-- `SMA` of proxy/policy/worker-keepalive-moving-interval.hpp: a ring of the last `N` inputs and their
-- sum, in `std::uint32_t`.
pub mod Window
use slsfs.Prelude.{
  set, get_or, ◌-◌, ◌%◌, ◌^◌, ◌/◌, replicate, ◌+◌, ◌==◌, List, ◌>>=◌, if◌then◌else◌, refl, suc,
  zero, inr, inl, false, true, none, some, ◌∷◌, [], ℕ,
}

pub record Sma : Type 0 where
  pub size : ℕ
  pub index : ℕ
  pub previous_inputs : List ℕ
  pub sum : ℕ

-- The constructor: a size of 0 is taken as 1.
unfoldable pub new_sma : ℕ → Sma
new_sma buffer_size =
    let n = if buffer_size == 0 then 1 else buffer_size in
    record { size = n; index = 0; previous_inputs = replicate n 0; sum = 0 }

unfoldable pub get_sma : Sma → ℕ
get_sma s = (s.sum + s.size / 2) % 2 ^ 32 / s.size

-- `record`: the oldest input leaves the sum and the new one takes its place.
unfoldable pub record_input : ℕ → Sma → Sma
record_input input s = record s {
  sum = (s.sum + (2 ^ 32 - get_or s.previous_inputs s.index 0 % 2 ^ 32) + input) % 2 ^ 32;
  previous_inputs = set s.previous_inputs s.index input;
  index = if s.index + 1 == s.size then 0 else s.index + 1;
}

unfoldable pub record_all : List ℕ → Sma → Sma
record_all [] s = s
record_all (x ∷ xs) s = record_all xs (record_input x s)
