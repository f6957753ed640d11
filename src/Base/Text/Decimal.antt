-- ===== src/Base/Text/Decimal.antt =====
-- `{}` of an unsigned integer prints decimal digits, one at least.
use ferro_http.Base.Text.{is_ascii_digit, dec_digits, print_dec, utf8_valid}
use ferro_http.Base.Text.Utf8.{ascii, both_true, true_both}
use ferro_http.Base.Tests.{ltb, Bool-cases}
use ferro_http.Base.ByteStrings.{Bytes, all}
use ferro_http.Base.Lists.{length, length-append}
use Prim.Native.Nat.{ℕ, zero, suc, ◌<◌, ◌+◌, ◌/◌, ◌%◌}
use mathlib.Core.Logic.{inl, inr}
use mathlib.Core.Path.{◌≡◌, refl}
use mathlib.Core.Bool.{Bool, true}
use mathlib.Core.List.{[], ◌∷◌, ◌++◌}
use native.Mathlib.Omega.{arith}

pub all-append :
    (p : ℕ → Bool) (xs ys : Bytes) → all p xs ≡ true → all p ys ≡ true → all p (xs ++ ys) ≡ true
all-append p [] ys h h' = h'
all-append p (x ∷ xs) ys h h' =
    let (here, later) = both_true (p x) (all p xs) h in true_both here (all-append p xs ys later h')

one_digit : (d : ℕ) → d < 10 → all is_ascii_digit ((d + b'0') ∷ []) ≡ true
one_digit d small = ground (arith, small)

dec_digits-digits : (fuel n : ℕ) → all is_ascii_digit (dec_digits fuel n) ≡ true
unfolding dec_digits
dec_digits-digits zero n = refl
dec_digits-digits (suc fuel) n = elim (Bool-cases (ltb n 10)) [
  | inl small ↦ rw small (one_digit n (ground (arith, small)))
  | inr big ↦ rw big (
      all-append is_ascii_digit (dec_digits fuel (n / 10)) ((n % 10 + b'0') ∷ [])
        (dec_digits-digits fuel (n / 10)) (one_digit (n % 10) (omega arith)))
]

pub print_dec-digits : (n : ℕ) → all is_ascii_digit (print_dec n) ≡ true
unfolding print_dec
print_dec-digits n = dec_digits-digits (suc n) n

pub length-print_dec : (n : ℕ) → 0 < length (print_dec n)
unfolding print_dec dec_digits
length-print_dec n = elim (Bool-cases (ltb n 10)) [
  | inl small ↦ rw small (omega arith)
  | inr big ↦ rw big (omega (arith, length-append (dec_digits n (n / 10)) ((n % 10 + b'0') ∷ [])))
]

pub utf8_valid-nil : utf8_valid [] ≡ true
unfolding utf8_valid
utf8_valid-nil = refl

pub utf8_valid-digits : (ds : Bytes) → all is_ascii_digit ds ≡ true → utf8_valid ds ≡ true
utf8_valid-digits [] h = utf8_valid-nil
utf8_valid-digits (d ∷ ds) h =
    let (here, later) = both_true (is_ascii_digit d) (all is_ascii_digit ds) h in
    rw (ascii d ds (ground (arith, here))) (utf8_valid-digits ds later)
