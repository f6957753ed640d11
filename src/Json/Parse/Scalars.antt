-- ===== src/Json/Parse/Scalars.antt =====
-- crates/core/src/json.rs: numbers, Booleans and `null` take bytes.
use ferro_http.Base.{
  ℕ, ◌-◌, ◌≤◌, inl, inr, Bool, true, false, not, ◌||◌, Option, none, some, arith, ◌==◌,
  if◌then◌else◌, Bool-cases, length, take, length-drop, codes, starts_with, utf8_valid,
}
use ferro_http.Json.{
  fail, invalid_number, fail, invalid_number, Float, JsonValue, Parser, Reply, ok, at_byte, advance,
}
use ferro_http.Json.Bounds.{Ends, >>=-Ends, advance-le, Ends-weaken, if-Ends}
use ferro_http.Json.Parse.{
  digits_len, consume_digits, skip_sign, fraction, exponent, parse_number, parse_bool, parse_null,
}

consume_digits-Ends : (p : Parser) → Ends (length p.rest - 1) (consume_digits p)
unfolding consume_digits
consume_digits-Ends p =
    if-Ends (length p.rest - 1) (digits_len p.rest == 0) _ _ (λ e. tt)
      λ e. ground (arith, e, length-drop (digits_len p.rest) p.rest)

fraction-Ends : (p : Parser) → Ends (length p.rest) (fraction p)
unfolding fraction
fraction-Ends p =
    if-Ends (length p.rest) (at_byte p b'.') _ _
      (λ e.
        Ends-weaken (omega (arith, advance-le 1 p)) (consume_digits (advance 1 p))
          (consume_digits-Ends (advance 1 p)))
      (λ e. omega arith)

exponent-Ends : (p : Parser) → Ends (length p.rest) (exponent p)
unfolding exponent
exponent-Ends p =
    if-Ends (length p.rest) (at_byte p b'e' || at_byte p b'E') _ _
      (λ e. signed (at_byte (advance 1 p) b'+' || at_byte (advance 1 p) b'-')) (λ e. omega arith)
  where
    signed :
        (b : Bool) → Ends (length p.rest) (consume_digits (if b then advance 2 p else advance 1 p))
    signed true =
        Ends-weaken (omega (arith, advance-le 2 p)) (consume_digits (advance 2 p))
          (consume_digits-Ends (advance 2 p))
    signed false =
        Ends-weaken (omega (arith, advance-le 1 p)) (consume_digits (advance 1 p))
          (consume_digits-Ends (advance 1 p))

skip_sign-le : (p : Parser) → length (skip_sign p).rest ≤ length p.rest
unfolding skip_sign
skip_sign-le p = elim (Bool-cases (at_byte p b'-')) [
  | inl sign ↦ rw sign (advance-le 1 p)
  | inr plain ↦ rw plain (omega arith)
]

module _ {F : Type 0} (float : Float F) where
  pub parse_number-Ends : (p : Parser) → Ends (length p.rest - 1) (parse_number float p)
  unfolding parse_number
  parse_number-Ends start =
      >>=-Ends k k (consume_digits (skip_sign start)) _
        (Ends-weaken (omega (arith, skip_sign-le start)) (consume_digits (skip_sign start))
          (consume_digits-Ends (skip_sign start)))
        λ _ p le.
          >>=-Ends k k (fraction p) _ (Ends-weaken le (fraction p) (fraction-Ends p)) λ _ q le'.
            >>=-Ends k k (exponent q) _ (Ends-weaken le' (exponent q) (exponent-Ends q)) λ _ r le''.
              if-Ends k (not (utf8_valid (take (r.pos - start.pos) start.rest))) _ _ (λ e. tt)
                λ e. converted r le'' (float.parse (take (r.pos - start.pos) start.rest))
    where
      k : ℕ
      k = length start.rest - 1

      converted :
          (r : Parser)
          → length r.rest ≤ length start.rest - 1
          → (o : Option F)
          → Ends (length start.rest - 1) (elim o as (λ x. Reply (JsonValue F)) [
            | none ↦ fail invalid_number start
            | some n ↦ ok (JsonValue.number n) r
          ])
      converted r le none = tt
      converted r le (some n) = le

module _ (F : Type 0) where
  pub parse_bool-Ends : (p : Parser) → Ends (length p.rest - 1) (parse_bool {F = F} p)
  unfolding parse_bool
  parse_bool-Ends p =
      if-Ends (length p.rest - 1) (starts_with p.rest (codes "true")) _ _
        (λ e. omega (arith, length-drop 4 p.rest))
        λ e.
          if-Ends (length p.rest - 1) (starts_with p.rest (codes "false")) _ _
            (λ e. omega (arith, length-drop 5 p.rest)) (λ e. tt)

  pub parse_null-Ends : (p : Parser) → Ends (length p.rest - 1) (parse_null {F = F} p)
  unfolding parse_null
  parse_null-Ends p =
      if-Ends (length p.rest - 1) (starts_with p.rest (codes "null")) _ _
        (λ e. omega (arith, length-drop 4 p.rest)) (λ e. tt)
