-- ===== src/Text.antt =====
-- Decimal text as the C++ standard library writes and reads it, over ASCII codes: what
-- ssbd/persistent-log.hpp and `packet_header::as_string` use of `std::to_string` and `std::stoll`.
pub mod Decimal
use Prim.Native.String.{String}
use Prim.Native.String
use Prim.Native.Char.{code}
use slsfs.Prelude.{
  refl, inr, inl, ◌>>=◌, zero, ◌%◌, ◌-◌, ◌++◌, ◌^◌, ◌+◌, false, ◌*◌, true, some, ltb, if◌then◌else◌,
  ◌||◌, ◌/◌, ◌&&◌, suc, none, ◌==◌, leb, Option, ◌∷◌, Bool, [], ℕ,
}
use slsfs.Bytes.{Bytes}

-- The codes of an ASCII literal.
abbrev pub codes : String → Bytes
codes String.[] = []
codes (String.◌∷◌ c s) = code c ∷ codes s

unfoldable pub is_digit : ℕ → Bool
is_digit c = leb 48 c && leb c 57

-- `std::to_string` and `fmt::format("{}")` of an unsigned integer, by at most `fuel` digits.
unfoldable pub to_string_fuel : ℕ → ℕ → Bytes
to_string_fuel zero n = []
to_string_fuel (suc fuel) n =
    let rest = to_string_fuel fuel (n / 10) in
    if ltb n 10 then (48 + n) ∷ [] else rest ++ ((48 + n % 10) ∷ [])

-- Ten digits hold every `std::uint32_t`.
unfoldable pub to_string : ℕ → Bytes
unfolding to_string_fuel
to_string n = to_string_fuel 10 n

-- The value of the leading digits, after those that `acc` holds.
unfoldable pub value : ℕ → Bytes → ℕ
value acc [] = acc
value acc (c ∷ cs) = if is_digit c then value (acc * 10 + (c - 48)) cs else acc

unfoldable pub is_space : ℕ → Bool
is_space c = c == 32 || (leb 9 c && leb c 13)

unfoldable pub skip_space : Bytes → Bytes
skip_space [] = []
skip_space (c ∷ cs) = if is_space c then skip_space cs else c ∷ cs

-- `none` where `std::stoll` throws `std::invalid_argument`: no digit stands there.
unfoldable pub magnitude : Bytes → Option ℕ
magnitude [] = none
magnitude (c ∷ cs) = if is_digit c then some (value 0 (c ∷ cs)) else none

-- `none` also where it throws `std::out_of_range`.
unfoldable pub to_unsigned : Bool → ℕ → Option ℕ
to_unsigned false v = if ltb v (2 ^ 63) then some (v % 2 ^ 32) else none
to_unsigned true v = if leb v (2 ^ 63) then some ((2 ^ 32 - v % 2 ^ 32) % 2 ^ 32) else none

unfoldable pub signed : Bytes → Option ℕ
signed [] = none
signed (c ∷ cs) =
    if c == 45
    then magnitude cs >>= to_unsigned true
    else if c == 43
    then magnitude cs >>= to_unsigned false
    else magnitude (c ∷ cs) >>= to_unsigned false

-- `std::stoll(text)` as it is converted to a `std::uint32_t`.
unfoldable pub stoll : Bytes → Option ℕ
stoll text = signed (skip_space text)
