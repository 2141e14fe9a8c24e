-- ===== src/Bytes/Laws.antt =====
-- Storing and loading are inverse, at every width; so turning the bytes round twice is.
use mathlib.Core.List.{reverse, reverse-reverse, reverse-cons}
use slsfs.Prelude.{
  ℕ, zero, suc, ◌+◌, ◌*◌, ◌/◌, ◌^◌, ◌<◌, ◌≡◌, refl, sym, ap, ap₂, ◌∙◌, [], ◌∷◌, ◌++◌, arith, some,
  length, length-append, take-append, drop-append, All, All-append,
}
use native.Mathlib.Nat.{pow-suc}
use slsfs.Bytes.{IsByte, Bytes, store, load, hton, ntoh, fetch}

pub length-store : (w x : ℕ) → length (store w x) ≡ w
unfolding store
length-store zero x = refl
length-store (suc w) x = ap suc (length-store w (x / 256))

pub store-All : (w x : ℕ) → All IsByte (store w x)
unfolding store
store-All zero x = tt
store-All (suc w) x = (omega arith, store-All w (x / 256))

-- An integer that fits its width is read back as it was written.
pub load-store : (w x : ℕ) → x < 256 ^ w → load (store w x) ≡ x
unfolding store load
load-store zero x h = omega arith
load-store (suc w) x h = omega (arith, load-store w (x / 256) (omega (arith, pow-suc 256 w)))

pub store-load : (bs : Bytes) → All IsByte bs → store (length bs) (load bs) ≡ bs
unfolding store load
store-load [] h = refl
store-load (b ∷ bs) h =
    ap₂ ◌∷◌ (omega (arith, h.0))
      (let e : (b + 256 * load bs) / 256 ≡ load bs = omega (arith, h.0) in rw e (store-load bs h.1))

pub length-reverse : (xs : Bytes) → length (reverse xs) ≡ length xs
length-reverse [] = refl
length-reverse (x ∷ xs) =
    omega
      (arith, ap length (reverse-cons x xs), length-append (reverse xs) (x ∷ []), length-reverse xs)

reverse-All : (xs : Bytes) → All IsByte xs → All IsByte (reverse xs)
reverse-All [] h = tt
reverse-All (x ∷ xs) h =
    rw (reverse-cons x xs) (All-append IsByte (reverse xs) (x ∷ []) (reverse-All xs h.1) (h.0, tt))

-- What goes over the wire is the most significant byte first.
pub store-hton : (w x : ℕ) → store w (hton w x) ≡ reverse (store w x)
unfolding hton
store-hton w x =
    let e : length (reverse (store w x)) ≡ w = length-reverse (store w x) ∙ length-store w x in
    rw e at (store-load (reverse (store w x)) (reverse-All (store w x) (store-All w x)))

pub ntoh-hton : (w x : ℕ) → x < 256 ^ w → ntoh w (hton w x) ≡ x
unfolding ntoh
ntoh-hton w x h = rw (store-hton w x, reverse-reverse (store w x)) (load-store w x h)

pub load-lt : (bs : Bytes) → All IsByte bs → load bs < 256 ^ length bs
unfolding load
load-lt [] h = omega arith
load-lt (b ∷ bs) h = omega (arith, h.0, load-lt bs h.1, pow-suc 256 (length bs))

hton-lt : (w x : ℕ) → hton w x < 256 ^ w
unfolding hton
hton-lt w x =
    let e : length (reverse (store w x)) ≡ w = length-reverse (store w x) ∙ length-store w x in
    rw e at (load-lt (reverse (store w x)) (reverse-All (store w x) (store-All w x)))

pub ntoh-load-store : (w x : ℕ) → x < 256 ^ w → ntoh w (load (store w (hton w x))) ≡ x
ntoh-load-store w x h = rw (load-store w (hton w x) (hton-lt w x)) (ntoh-hton w x h)

pub fetch-append : (n : ℕ) (xs ys : Bytes) → length xs ≡ n → fetch n (xs ++ ys) ≡ some (xs, ys)
unfolding fetch
fetch-append n xs ys e =
    ground (arith, length-append xs ys, take-append xs ys n (sym e), drop-append xs ys n (sym e))

pub fetch-store : (w x : ℕ) (ys : Bytes) → fetch w (store w x ++ ys) ≡ some (store w x, ys)
fetch-store w x ys = fetch-append w (store w x) ys (length-store w x)
