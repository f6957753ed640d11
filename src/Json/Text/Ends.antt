-- ===== src/Json/Text/Ends.antt =====
-- crates/core/src/json.rs: the loops of `parse_string` end, and a string takes bytes.
use ferro_http.Base.{
  ℕ, zero, suc, ◌+◌, ◌-◌, ◌*◌, ◌%◌, ◌^◌, ◌≤◌, ◌<◌, not, ◌||◌, Option, none, some, [], ◌∷◌, ◌++◌,
  arith, ltb, leb, ◌==◌, if◌then◌else◌, length, take, Bytes, within, utf8_valid,
}
use ferro_http.Json.{
  Parser, Reply, ok, fail, some_or, at_byte, advance, unexpected_end, invalid_unicode,
  invalid_escape,
}
use ferro_http.Json.Bounds.{
  Ends, >>=-Ends, some_or-Ends, peek-Ends, advance-lt, advance-le, expect-Ends, Ends-weaken,
  if-Ends,
}
use ferro_http.Json.Text.{
  read_hex, read_hex4, to_digit_16, low_surrogate, scalar, parse_unicode_escape, from_u32,
  simple_escape, escape_of, parse_escape, verbatim, string_turn, string_loop, parse_string,
  utf8_len,
}

read_hex-Ends : (n value : ℕ) (p : Parser) → Ends (length p.rest) (read_hex n value p)
unfolding read_hex
read_hex-Ends zero value p = omega arith
read_hex-Ends (suc n) value p = peek-Ends unexpected_end p (length p.rest) _ λ b more.
    >>=-Ends (length p.rest) (length p.rest) (some_or (to_digit_16 b) invalid_unicode p) _
      (some_or-Ends (to_digit_16 b) invalid_unicode p)
      λ d q le.
        Ends-weaken (omega (arith, le, advance-le 1 q))
          (read_hex n ((value * 16 + d) % 2 ^ 16) (advance 1 q))
          (read_hex-Ends n ((value * 16 + d) % 2 ^ 16) (advance 1 q))

read_hex4-Ends : (p : Parser) → Ends (length p.rest) (read_hex4 p)
unfolding read_hex4
read_hex4-Ends p = read_hex-Ends 4 0 p

low_surrogate-Ends : (first : ℕ) (p : Parser) → Ends (length p.rest) (low_surrogate first p)
unfolding low_surrogate
low_surrogate-Ends first p =
    if-Ends (length p.rest) (not (at_byte p b'\\')) _ _ (λ e. tt)
      λ e.
        if-Ends (length p.rest) (not (at_byte (advance 1 p) b'u')) _ _ (λ e. tt)
          λ e.
            >>=-Ends (length p.rest) (length p.rest) (read_hex4 (advance 2 p)) _
              (Ends-weaken (advance-le 2 p) (read_hex4 (advance 2 p))
                (read_hex4-Ends (advance 2 p)))
              λ low q le.
                if-Ends (length p.rest) (not (within 0xDC00 0xDFFF low)) _ _ (λ e. tt) (λ e. le)

scalar-Ends : (first : ℕ) (p : Parser) → Ends (length p.rest) (scalar first p)
unfolding scalar
scalar-Ends first p =
    if-Ends (length p.rest) (within 0xD800 0xDBFF first) _ _ (λ e. low_surrogate-Ends first p)
      λ e. if-Ends (length p.rest) (within 0xDC00 0xDFFF first) _ _ (λ e. tt) (λ e. omega arith)

parse_unicode_escape-Ends :
    (p : Parser) (out : Bytes) → Ends (length p.rest) (parse_unicode_escape p out)
unfolding parse_unicode_escape
parse_unicode_escape-Ends p out =
    >>=-Ends (length p.rest) (length p.rest) (read_hex4 p) _ (read_hex4-Ends p) λ first q le.
      >>=-Ends (length p.rest) (length p.rest) (scalar first q) _
        (Ends-weaken le (scalar first q) (scalar-Ends first q))
        λ c r le'.
          >>=-Ends (length p.rest) (length p.rest) (some_or (from_u32 c) invalid_unicode r) _
            (Ends-weaken le' (some_or (from_u32 c) invalid_unicode r)
              (some_or-Ends (from_u32 c) invalid_unicode r))
            λ ch s le''. le''

escape_of-Ends : (e : ℕ) (p : Parser) (out : Bytes) → Ends (length p.rest) (escape_of e p out)
unfolding escape_of
escape_of-Ends e p out = at_letter (simple_escape e)
  where
    at_letter :
        (o : Option ℕ)
        → Ends (length p.rest) (elim o [
          | some c ↦ ok (out ++ c ∷ []) p
          | none ↦ if e == b'u' then parse_unicode_escape p out else fail invalid_escape p
        ])
    at_letter (some c) = omega arith
    at_letter none =
        if-Ends (length p.rest) (e == b'u') _ _ (λ h. parse_unicode_escape-Ends p out) (λ h. tt)

parse_escape-Ends : (p : Parser) (out : Bytes) → Ends (length p.rest) (parse_escape p out)
unfolding parse_escape
parse_escape-Ends p out = peek-Ends unexpected_end p (length p.rest) _ λ e more.
    Ends-weaken (advance-le 1 p) (escape_of e (advance 1 p) out)
      (escape_of-Ends e (advance 1 p) out)

-- A turn leaves fewer bytes to the turns behind it.
string_turn-Ends :
    (next : Bytes → Parser → Reply Bytes) (out : Bytes) (p : Parser) (b : ℕ)
    → 0 < length p.rest
    → ((out' : Bytes) (q : Parser)
        → length q.rest < length p.rest
        → Ends (length p.rest - 1) (next out' q))
    → Ends (length p.rest - 1) (string_turn next out p b)
unfolding string_turn verbatim
string_turn-Ends next out p b more later =
    if-Ends k (b == b'"') _ _ (λ e. after)
      λ e.
        if-Ends k (b == b'\\') _ _
          (λ e.
            >>=-Ends k k (parse_escape (advance 1 p) out) _
              (Ends-weaken after (parse_escape (advance 1 p) out)
                (parse_escape-Ends (advance 1 p) out))
              λ out' q le. later out' q (omega (arith, le, more)))
          λ e.
            if-Ends k (leb b 0x1F) _ _ (λ e. tt)
              λ e.
                if-Ends k (utf8_len b == 0 || ltb (length p.rest) (utf8_len b)) _ _ (λ e. tt)
                  λ long.
                    if-Ends k (not (utf8_valid (take (utf8_len b) p.rest))) _ _ (λ e. tt)
                      λ e. later _ _ (advance-lt (utf8_len b) p (ground (arith, long)) more)
  where
    k : ℕ
    k = length p.rest - 1

    after : length (advance 1 p).rest ≤ length p.rest - 1
    after = omega (arith, advance-lt 1 p (omega arith) more)

string_loop-Ends :
    (fuel : ℕ) (out : Bytes) (p : Parser)
    → length p.rest < fuel
    → Ends (length p.rest - 1) (string_loop fuel out p)
unfolding string_loop
string_loop-Ends zero out p enough = absurd (omega (arith, enough))
string_loop-Ends (suc fuel) out p enough =
    peek-Ends unexpected_end p (length p.rest - 1) _ λ b more.
      string_turn-Ends (string_loop fuel) out p b more λ out' q lt.
        Ends-weaken (omega (arith, lt)) (string_loop fuel out' q)
          (string_loop-Ends fuel out' q (omega (arith, lt, enough)))

-- A string takes a byte at least.
pub parse_string-Ends : (p : Parser) → Ends (length p.rest - 1) (parse_string p)
unfolding parse_string
parse_string-Ends p =
    >>=-Ends (length p.rest - 1) (length p.rest - 1) _ _ (expect-Ends b'"' p) λ u q le.
      Ends-weaken (omega (arith, le)) (string_loop (suc (length q.rest)) [] q)
        (string_loop-Ends (suc (length q.rest)) [] q (omega arith))
