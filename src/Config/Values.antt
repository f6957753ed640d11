-- ===== src/Config/Values.antt =====
-- crates/core/src/config.rs and json.rs: the strings, Booleans and numbers that the writer prints are
-- read back.
use ferro_http.Base.{
  ℕ, zero, suc, ◌+◌, ◌-◌, ◌≤◌, ◌<◌, ◌≡◌, refl, ap, ◌∙◌, Bool, true, false, ◌||◌, some, [], ◌∷◌,
  ◌++◌, arith, ◌==◌, length, Bytes, all, is_ascii_digit, starts_with, utf8_valid, print_dec,
}
use ferro_http.Base.Text.Utf8.{both_true}
use ferro_http.Base.Text.Decimal.{utf8_valid-digits, print_dec-digits, length-print_dec}
use ferro_http.Json.{Float, JsonValue, number, string, bool, ok, Parser, Reply}
use ferro_http.Json.Parse.{
  max_depth, digits_len, consume_digits, skip_sign, fraction, exponent, parse_number, parse_bool,
  value_at, parse_value,
}
use ferro_http.Config.Write.{quoted, print_bool}
use ferro_http.Config.Strings.{take_front, drop_front, Yields, parse_string-quoted}

-- The bytes that follow a value in what the writer prints.
abbrev pub ends_value : Bytes → Bool
ends_value [] = false
ends_value (c ∷ cs) = c == b',' || c == b'\n' || c == b']'

module _ {F : Type 0} (float : Float F) where
  -- The text is read as that value, which is nested so deep at most, wherever it stands.
  abbrev pub Reads : ℕ → Bytes → JsonValue F → Type 0
  Reads deep text v =
      (fuel depth pos : ℕ) (tail : Bytes)
      → deep < fuel
      → depth + deep ≤ max_depth
      → ends_value tail ≡ true
      → Yields v tail (parse_value float fuel depth (record { pos = pos; rest = text ++ tail }))

  pub string-Reads : (deep : ℕ) (s : Bytes) → utf8_valid s ≡ true → Reads deep (quoted s) (string s)
  unfolding parse_value value_at
  string-Reads deep s valid zero depth pos tail enough bound end = absurd (omega (arith, enough))
  string-Reads deep s valid (suc fuel) depth pos tail enough bound end =
      let (after, read) = parse_string-quoted pos s tail valid in (after, rw read refl)

  pub bool-Reads : (deep : ℕ) (b : Bool) → Reads deep (print_bool b) (bool b)
  unfolding parse_value value_at parse_bool starts_with
  bool-Reads deep b zero depth pos tail enough bound end = absurd (omega (arith, enough))
  bool-Reads deep true (suc fuel) depth pos tail enough bound end = (pos + 4, refl)
  bool-Reads deep false (suc fuel) depth pos tail enough bound end = (pos + 5, refl)

ends_digits : (c : ℕ) → ends_value (c ∷ []) ≡ true → is_ascii_digit c ≡ false
ends_digits c end = ground (arith, end)

module _ (c : ℕ) (cs : Bytes) (end : ends_value (c ∷ cs) ≡ true) where
  digits_len-append :
      (ds : Bytes) → all is_ascii_digit ds ≡ true → digits_len (ds ++ c ∷ cs) ≡ length ds
  unfolding digits_len
  digits_len-append [] h = rw (ends_digits c end) refl
  digits_len-append (d ∷ ds) h =
      let (here, later) = both_true (is_ascii_digit d) (all is_ascii_digit ds) h in
      rw here (ap suc (digits_len-append ds later))

  consume_digits-all :
      (d pos : ℕ) (ds : Bytes)
      → all is_ascii_digit (d ∷ ds) ≡ true
      → consume_digits (record { pos = pos; rest = d ∷ ds ++ c ∷ cs })
        ≡ ok tt (record { pos = pos + suc (length ds); rest = c ∷ cs })
  unfolding consume_digits
  consume_digits-all d pos ds h =
      rw (digits_len-append (d ∷ ds) h, some_digits, drop_front (d ∷ ds) (c ∷ cs)) refl
    where
      some_digits : (suc (length ds) == 0) ≡ false
      some_digits = ground arith

  fraction-none :
      (pos : ℕ)
      → fraction (record { pos = pos; rest = c ∷ cs }) ≡ ok tt (record { pos = pos; rest = c ∷ cs })
  unfolding fraction
  fraction-none pos = rw dot refl
    where
      dot : (c == b'.') ≡ false
      dot = ground (arith, end)

  exponent-none :
      (pos : ℕ)
      → exponent (record { pos = pos; rest = c ∷ cs }) ≡ ok tt (record { pos = pos; rest = c ∷ cs })
  unfolding exponent
  exponent-none pos = rw letter refl
    where
      letter : (c == b'e' || c == b'E') ≡ false
      letter = ground (arith, end)

  skip_sign-digit :
      (d pos : ℕ) (ds : Bytes)
      → is_ascii_digit d ≡ true
      → skip_sign (record { pos = pos; rest = d ∷ ds }) ≡ record { pos = pos; rest = d ∷ ds }
  unfolding skip_sign
  skip_sign-digit d pos ds h = rw sign refl
    where
      sign : (d == b'-') ≡ false
      sign = ground (arith, h)

  parse_number-digits :
      {F : Type 0} (float : Float F) (n : F) (d pos : ℕ) (ds : Bytes)
      → all is_ascii_digit (d ∷ ds) ≡ true
      → float.parse (d ∷ ds) ≡ some n
      → parse_number float (record { pos = pos; rest = d ∷ ds ++ c ∷ cs })
        ≡ ok (number n) (record { pos = pos + suc (length ds); rest = c ∷ cs })
  unfolding parse_number
  parse_number-digits float n d pos ds h parsed =
      rw
        (
          skip_sign-digit d pos (ds ++ c ∷ cs) (both_true _ _ h).0,
          consume_digits-all d pos ds h,
          fraction-none (pos + suc (length ds)),
          exponent-none (pos + suc (length ds)),
          len,
          take_front (d ∷ ds) (c ∷ cs),
          utf8_valid-digits (d ∷ ds) h,
          parsed,
        )
        refl
    where
      len : pos + suc (length ds) - pos ≡ suc (length ds)
      len = omega arith

module _ {F : Type 0} (float : Float F) where
  value_at-digit :
      (value : Parser → Reply (JsonValue F)) (depth d : ℕ) (p : Parser)
      → is_ascii_digit d ≡ true
      → value_at float value depth p d ≡ parse_number float p
  unfolding value_at
  value_at-digit value depth d p h =
      rw (brace, bracket, quote, bool_letter, null_letter, digit) refl
    where
      brace : (d == b'{') ≡ false
      brace = ground (arith, h)

      bracket : (d == b'[') ≡ false
      bracket = ground (arith, h)

      quote : (d == b'"') ≡ false
      quote = ground (arith, h)

      bool_letter : (d == b't' || d == b'f') ≡ false
      bool_letter = ground (arith, h)

      null_letter : (d == b'n') ≡ false
      null_letter = ground (arith, h)

      digit : (d == b'-' || is_ascii_digit d) ≡ true
      digit = ground (arith, h)

  digits-Reads :
      (deep : ℕ) (n : F) (ds : Bytes)
      → all is_ascii_digit ds ≡ true
      → 0 < length ds
      → float.parse ds ≡ some n
      → Reads float deep ds (number n)
  unfolding parse_value
  digits-Reads deep n ds h long parsed zero depth pos tail enough bound end =
      absurd (omega (arith, enough))
  digits-Reads deep n [] h long parsed (suc fuel) depth pos tail enough bound end =
      absurd (omega (arith, long))
  digits-Reads deep n (d ∷ ds) h long parsed (suc fuel) depth pos [] enough bound end = cc
  digits-Reads deep n (d ∷ ds) h long parsed (suc fuel) depth pos (c ∷ cs) enough bound end = (
    pos + suc (length ds),
    value_at-digit (parse_value float fuel (depth + 1)) depth d
          (record { pos = pos; rest = d ∷ ds ++ c ∷ cs })
          (both_true (is_ascii_digit d) (all is_ascii_digit ds) h).0
        ∙ parse_number-digits c cs end float n d pos ds h parsed,
  )

  pub number-Reads :
      (deep n : ℕ)
      → float.parse (print_dec n) ≡ some (float.of_u64 n)
      → Reads float deep (print_dec n) (number (float.of_u64 n))
  number-Reads deep n parsed =
      digits-Reads deep (float.of_u64 n) (print_dec n) (print_dec-digits n) (length-print_dec n)
        parsed
