-- ===== src/Text/Decimal.antt =====
-- A number that was written in decimal is read back, and its text is digits only.
use native.Mathlib.Nat.{pow-suc}
use slsfs.Prelude.{
  ◌>>=◌, Option, Bool, false, none, refl, subst, ◌%◌, ◌/◌, All-append, inr, [], ltb→lt, inl, ap,
  ◌-◌, zero, ◌∙◌, ltb, ◌+◌, some, sym, Bool-cases, ◌*◌, arith, suc, ◌∷◌, ◌^◌, ◌++◌, true, ◌<◌, All,
  ◌≡◌, ◌≤◌, ℕ,
}
use slsfs.Bytes.{Bytes}
use slsfs.Text.{
  is_digit, to_string_fuel, to_string, value, stoll, signed, skip_space, magnitude, to_unsigned,
  is_space,
}

abbrev pub IsDigit : ℕ → Type 0
IsDigit c = (48 ≤ c) × (c ≤ 57)

is_digit_of : (c : ℕ) → IsDigit c → is_digit c ≡ true
unfolding is_digit
is_digit_of c h = ground arith

pub value-append :
    (acc : ℕ) (xs ys : Bytes) → All IsDigit xs → value acc (xs ++ ys) ≡ value (value acc xs) ys
unfolding value
value-append acc [] ys h = refl
value-append acc (x ∷ xs) ys h =
    rw (is_digit_of x h.0) (value-append (acc * 10 + (x - 48)) xs ys h.1)

to_string_fuel-IsDigit : (f n : ℕ) → All IsDigit (to_string_fuel f n)
unfolding to_string_fuel
to_string_fuel-IsDigit zero n = tt
to_string_fuel-IsDigit (suc f) n = elim (Bool-cases (ltb n 10)) [
  | inl small ↦ rw small (omega (arith, ltb→lt n 10 small))
  | inr big ↦ rw big (
      All-append IsDigit (to_string_fuel f (n / 10)) ((48 + n % 10) ∷ [])
        (to_string_fuel-IsDigit f (n / 10)) (omega arith))
]

value-to_string_fuel : (f n : ℕ) → n < 10 ^ f → value 0 (to_string_fuel f n) ≡ n
unfolding to_string_fuel value is_digit
value-to_string_fuel zero n h = omega arith
value-to_string_fuel (suc f) n h = elim (Bool-cases (ltb n 10)) [
  | inl small ↦ rw small (ground (arith, ltb→lt n 10 small))
  | inr big ↦
      rw
        (
          big,
          value-append 0 (to_string_fuel f (n / 10)) ((48 + n % 10) ∷ [])
              (to_string_fuel-IsDigit f (n / 10)),
          value-to_string_fuel f (n / 10) (omega (arith, pow-suc 10 f)),
        )
        (ground arith)
]

pub to_string-IsDigit : (n : ℕ) → All IsDigit (to_string n)
unfolding to_string
to_string-IsDigit n = to_string_fuel-IsDigit 10 n

pub value-to_string : (n : ℕ) → n < 2 ^ 32 → value 0 (to_string n) ≡ n
unfolding to_string
value-to_string n h = value-to_string_fuel 10 n (omega arith)

pub to_string-injective : (m n : ℕ) → m < 2 ^ 32 → n < 2 ^ 32 → to_string m ≡ to_string n → m ≡ n
to_string-injective m n hm hn e = sym (value-to_string m hm) ∙ ap (value 0) e ∙ value-to_string n hn

append-cons : (xs : Bytes) (y : ℕ) → (c : ℕ) × (cs : Bytes) × (xs ++ (y ∷ []) ≡ c ∷ cs)
append-cons [] y = (y, [], refl)
append-cons (x ∷ xs) y = (x, xs ++ (y ∷ []), refl)

to_string_fuel-cons : (f n : ℕ) → (c : ℕ) × (cs : Bytes) × (to_string_fuel (suc f) n ≡ c ∷ cs)
unfolding to_string_fuel
to_string_fuel-cons f n = elim (Bool-cases (ltb n 10)) [
  | inl small ↦ (48 + n, [], rw small)
  | inr big ↦
      let (c, cs, e) = append-cons (to_string_fuel f (n / 10)) (48 + n % 10) in (c, cs, rw big e)
]

-- The text is not empty.
pub to_string-cons : (n : ℕ) → (c : ℕ) × (cs : Bytes) × (to_string n ≡ c ∷ cs)
unfolding to_string to_string_fuel
to_string-cons n = to_string_fuel-cons 9 n

stoll_digits :
    (n c : ℕ) (cs : Bytes)
    → n < 2 ^ 32
    → All IsDigit (c ∷ cs)
    → value 0 (c ∷ cs) ≡ n
    → stoll (c ∷ cs) ≡ some n
unfolding stoll skip_space is_space signed magnitude to_unsigned
stoll_digits n c cs h d e = ground (arith, is_digit_of c d.0)

pub stoll-to_string : (n : ℕ) → n < 2 ^ 32 → stoll (to_string n) ≡ some n
unfolding stoll
stoll-to_string n h =
    let (c, cs, e) = to_string-cons n in
    rw e (
      stoll_digits n c cs h (subst (All IsDigit) e (to_string-IsDigit n))
        (ap (value 0) (sym e) ∙ value-to_string n h))

-- What `std::stoll` returns is converted to 32 bits.
to_unsigned-lt : (minus : Bool) (m v : ℕ) → to_unsigned minus m ≡ some v → v < 2 ^ 32
unfolding to_unsigned
to_unsigned-lt false m v e = ground arith
to_unsigned-lt true m v e = ground arith

converted-lt :
    (minus : Bool) (m : Option ℕ) (v : ℕ) → (m >>= to_unsigned minus) ≡ some v → v < 2 ^ 32
converted-lt minus none v e = cc
converted-lt minus (some m) v e = to_unsigned-lt minus m v e

signed-lt : (text : Bytes) (v : ℕ) → signed text ≡ some v → v < 2 ^ 32
unfolding signed
signed-lt [] v e = cc
signed-lt (c ∷ cs) v e = ground (
  arith,
  converted-lt true (magnitude cs) v,
  converted-lt false (magnitude cs) v,
  converted-lt false (magnitude (c ∷ cs)) v,
)

pub stoll-lt : (text : Bytes) (v : ℕ) → stoll text ≡ some v → v < 2 ^ 32
unfolding stoll
stoll-lt text v e = signed-lt (skip_space text) v e
