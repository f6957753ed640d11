-- ===== src/StaticFiles/Escapes.antt =====
-- crates/core/src/handler/static_files.rs: `percent_decode` against the percent-encodings of a string.
use ferro_http.Base.{
  ℕ, ◌+◌, ◌*◌, ◌≤◌, ◌<◌, ◌≡◌, refl, ap, ◌∙◌, ◌≢◌, ◌↔◌, ◌⊎◌, inl, inr, true, Option, none, some, [],
  ◌∷◌, arith, ◌==◌, ==_iff, Bool-cases, Option-cases, Bytes, within, utf8_valid,
}
use mathlib.Core.Option.{some-injective}
use mathlib.Core.Option
use ferro_http.StaticFiles.{
  hex_value, outside, after_percent, decode_byte, decode_from, percent_decode, as_utf8,
}

-- A hexadecimal digit, in either case, and its value.
abbrev pub IsHexDigit : ℕ → ℕ → Type 0
IsHexDigit c n = ((n < 10) × (c ≡ n + 48)) ⊎ (((10 ≤ n) × (n < 16)) × ((c ≡ n + 87) ⊎ (c ≡ n + 55)))

-- The first text is a percent-encoding of the second: any byte of it may be written as `%` with two
-- hexadecimal digits, and any but `%` may stand for itself.
pub data Encodes : Bytes → Bytes → Type 0 where
  nothing : Encodes [] []
  literal : (c : ℕ) (cs s : Bytes) → c ≢ b'%' → Encodes cs s → Encodes (c ∷ cs) (c ∷ s)
  escape :
      (h l hi lo : ℕ) (cs s : Bytes)
      → IsHexDigit h hi
      → IsHexDigit l lo
      → Encodes cs s
      → Encodes (b'%' ∷ h ∷ l ∷ cs) ((hi * 16 + lo) ∷ s)

IsHexDigit-value : (c n : ℕ) → IsHexDigit c n → hex_value c ≡ some n
unfolding hex_value
IsHexDigit-value c n (inl (small, eq)) = ground (arith, small, eq)
IsHexDigit-value c n (inr ((low, high), inl eq)) = ground (arith, low, high, eq)
IsHexDigit-value c n (inr ((low, high), inr eq)) = ground (arith, low, high, eq)

value-IsHexDigit : (c : ℕ) {n : ℕ} → hex_value c ≡ some n → IsHexDigit c n
unfolding hex_value
value-IsHexDigit c h = elim (Bool-cases (within b'0' b'9' c)) [
  | inl ten ↦ inl (ground (arith, ten, h))
  | inr not_ten ↦ elim (Bool-cases (within b'a' b'f' c)) [
    | inl low ↦ inr (ground (arith, low, not_ten, h), inl (ground (arith, low, not_ten, h)))
    | inr not_low ↦
        inr (ground (arith, not_low, not_ten, h), inr (ground (arith, not_low, not_ten, h)))
  ]
]

Encodes-decode : {e s : Bytes} → Encodes e s → decode_from outside e ≡ some s
unfolding decode_from decode_byte
Encodes-decode nothing = refl
Encodes-decode (literal c cs s other en) = ground (arith, other, Encodes-decode en)
Encodes-decode (escape h l hi lo cs s dh dl en) =
    rw (IsHexDigit-value h hi dh) (rw (IsHexDigit-value l lo dl) (rw (Encodes-decode en) refl))

mapped :
    (f : Bytes → Bytes) (o : Option Bytes) (s : Bytes)
    → Option.map f o ≡ some s
    → (rest : Bytes) × (o ≡ some rest) × (s ≡ f rest)
mapped f none s h = absurd (cc h)
mapped f (some rest) s h = (rest, refl, cc h)

literal-Encodes :
    (c : ℕ) (cs s : Bytes)
    → ((rest : Bytes) → decode_from outside cs ≡ some rest → Encodes cs rest)
    → c ≢ b'%'
    → decode_from outside (c ∷ cs) ≡ some s
    → Encodes (c ∷ cs) s
unfolding decode_from decode_byte
literal-Encodes c cs s encoded other h =
    let (rest, decoded, eq) =
      mapped (λ rest. c ∷ rest) (decode_from outside cs) s (ground (arith, other, h)) in
    rw eq (literal c cs rest other (encoded rest decoded))

escape-Encodes :
    (h l : ℕ) (cs s : Bytes)
    → ((rest : Bytes) → decode_from outside cs ≡ some rest → Encodes cs rest)
    → decode_from after_percent (h ∷ l ∷ cs) ≡ some s
    → Encodes (b'%' ∷ h ∷ l ∷ cs) s
unfolding decode_from decode_byte
escape-Encodes h l cs s encoded e = elim (Option-cases (hex_value h)) [
  | inl missing ↦ absurd (ground (arith, missing, e))
  | inr (hi, high) ↦ elim (Option-cases (hex_value l)) [
    | inl missing ↦ absurd (ground (arith, high, missing, e))
    | inr (lo, low) ↦
        let (rest, decoded, eq) =
          mapped (λ rest. (hi * 16 + lo) ∷ rest) (decode_from outside cs) s
            (ground (arith, high, low, e)) in
        rw eq (
          escape h l hi lo cs rest (value-IsHexDigit h high) (value-IsHexDigit l low)
            (encoded rest decoded))
  ]
]

decode-Encodes : (e s : Bytes) → decode_from outside e ≡ some s → Encodes e s
unfolding decode_from decode_byte
decode-Encodes [] s h = let same : [] ≡ s = cc h in rw (← same) nothing
decode-Encodes (c ∷ []) s h = elim (Bool-cases (c == b'%')) [
  | inl percent ↦ absurd (ground (arith, percent, h))
  | inr other ↦ literal-Encodes c [] s (decode-Encodes []) (λ eq. ground (arith, eq, other)) h
]
decode-Encodes (c ∷ d ∷ []) s h = elim (Bool-cases (c == b'%')) [
  | inl percent ↦ absurd (ground (arith, percent, h))
  | inr other ↦
      literal-Encodes c (d ∷ []) s (decode-Encodes (d ∷ [])) (λ eq. ground (arith, eq, other)) h
]
decode-Encodes (c ∷ d ∷ l ∷ cs) s h = elim (Bool-cases (c == b'%')) [
  | inl percent ↦
      rw ((==_iff c b'%').0 percent)
        (escape-Encodes d l cs s (decode-Encodes cs) (ground (arith, percent, h)))
  | inr other ↦
      literal-Encodes c (d ∷ l ∷ cs) s (decode-Encodes (d ∷ l ∷ cs))
        (λ eq. ground (arith, eq, other)) h
]

-- Percent-decoding yields a string exactly when the string is UTF-8 and the input is one of its
-- percent-encodings, with hexadecimal digits of either case.
pub percent_decode_iff :
    (e s : Bytes) → (percent_decode e ≡ some s) ↔ (Encodes e s × (utf8_valid s ≡ true))
unfolding percent_decode
percent_decode_iff e s = (decoded, decoding)
  where
    decoded : as_utf8 (decode_from outside e) ≡ some s → Encodes e s × (utf8_valid s ≡ true)
    decoded h = elim (Option-cases (decode_from outside e)) [
      | inl missing ↦ absurd (ground (arith, missing, h))
      | inr (out, found) ↦
          let valid : utf8_valid out ≡ true = ground (arith, found, h) in
          let same : out ≡ s = ground (arith, found, h) in
          (decode-Encodes e s (found ∙ ap some same), rw (← same) valid)
    ]

    decoding : Encodes e s × (utf8_valid s ≡ true) → as_utf8 (decode_from outside e) ≡ some s
    decoding (en, valid) = rw (Encodes-decode en, valid) refl
