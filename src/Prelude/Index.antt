-- ===== src/Prelude/Index.antt =====
-- Reading a list by index through `++`, `take`, `drop` and `replicate`.
use Prim.Native.Nat.{ℕ, zero, suc, ◌+◌, ◌-◌, ◌≤◌, ◌<◌}
use mathlib.Core.Path.{◌≡◌, refl, ap₂}
use mathlib.Core.List.{List, [], ◌∷◌, ◌++◌}
use native.Mathlib.Omega.{arith}
use slsfs.Prelude.Tests.{ltb, if◌then◌else◌}
use slsfs.Prelude.Lists.{length, get_or, take, drop, replicate}

module _ {ℓ} {A : Type ℓ} where
  pub get_or-append :
      (xs ys : List A) (i : ℕ) (d : A)
      → get_or (xs ++ ys) i d
        ≡ (if ltb i (length xs) then get_or xs i d else get_or ys (i - length xs) d)
  get_or-append [] ys i d = ground arith
  get_or-append (x ∷ xs) ys zero d = ground arith
  get_or-append (x ∷ xs) ys (suc i) d = ground (arith, get_or-append xs ys i d)

  pub get_or-take :
      (n : ℕ) (xs : List A) (i : ℕ) (d : A)
      → get_or (take n xs) i d ≡ (if ltb i n then get_or xs i d else d)
  get_or-take zero xs i d = ground arith
  get_or-take (suc n) [] i d = ground arith
  get_or-take (suc n) (x ∷ xs) zero d = ground arith
  get_or-take (suc n) (x ∷ xs) (suc i) d = ground (arith, get_or-take n xs i d)

  pub get_or-drop :
      (n : ℕ) (xs : List A) (i : ℕ) (d : A) → get_or (drop n xs) i d ≡ get_or xs (n + i) d
  get_or-drop zero xs i d = ground arith
  get_or-drop (suc n) [] i d = refl
  get_or-drop (suc n) (x ∷ xs) i d = ground (arith, get_or-drop n xs i d)

  pub get_or-replicate : (n i : ℕ) (d : A) → get_or (replicate n d) i d ≡ d
  get_or-replicate zero i d = refl
  get_or-replicate (suc n) zero d = refl
  get_or-replicate (suc n) (suc i) d = get_or-replicate n i d

  pub get_or-ge : (xs : List A) (i : ℕ) (d : A) → length xs ≤ i → get_or xs i d ≡ d
  get_or-ge [] i d h = refl
  get_or-ge (x ∷ xs) zero d h = absurd (omega arith)
  get_or-ge (x ∷ xs) (suc i) d h = get_or-ge xs i d (omega arith)

  -- Lists of one length that agree at each index are the same.
  pub list_ext :
      (xs ys : List A) (d : A)
      → length xs ≡ length ys
      → ((i : ℕ) → i < length xs → get_or xs i d ≡ get_or ys i d)
      → xs ≡ ys
  list_ext [] [] d e h = refl
  list_ext [] (y ∷ ys) d e h = absurd (omega arith)
  list_ext (x ∷ xs) [] d e h = absurd (omega arith)
  list_ext (x ∷ xs) (y ∷ ys) d e h =
      ap₂ ◌∷◌ (h 0 (omega arith)) (list_ext xs ys d (omega arith) λ i lt. h (suc i) (omega arith))
