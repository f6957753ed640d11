-- ===== src/Json/Parse.antt =====
-- crates/core/src/json.rs: values, nested to a bound, and documents.
use ferro_http.Base.{
  ℕ, zero, suc, ◌+◌, ◌-◌, true, false, not, ◌||◌, none, some, [], ◌∷◌, ltb, ◌==◌, if◌then◌else◌,
  length, take, Bytes, codes, is_empty, is_ascii_digit, starts_with, utf8_valid,
}
pub mod Total
pub mod Holds
pub mod Depth
pub mod Scalars
use ferro_http.Json.{
  Float, JsonValue, null, bool, number, string, array, object, Items, no_items, Members, no_members,
  push_item, push_member, unexpected_end, unexpected_byte, invalid_number, depth_exceeded,
  trailing_data, Parser, Reply, ok, out_of_fuel, ◌>>=◌, fail, some_or, peek, at_byte, advance,
  skip_ws, expect,
}
use ferro_http.Json.Text.{parse_string}

abbrev pub max_depth : ℕ
max_depth = 64

-- The digits in front of the text.
unfoldable pub digits_len : Bytes → ℕ
digits_len [] = 0
digits_len (b ∷ bs) = if is_ascii_digit b then suc (digits_len bs) else 0

unfoldable pub consume_digits : Parser → Reply (Unit {0})
consume_digits p =
    if digits_len p.rest == 0 then fail invalid_number p else ok tt (advance (digits_len p.rest) p)

unfoldable pub skip_sign : Parser → Parser
skip_sign p = if at_byte p b'-' then advance 1 p else p

unfoldable pub fraction : Parser → Reply (Unit {0})
fraction p = if at_byte p b'.' then consume_digits (advance 1 p) else ok tt p

unfoldable pub exponent : Parser → Reply (Unit {0})
exponent p =
    if at_byte p b'e' || at_byte p b'E'
    then consume_digits (
        if at_byte (advance 1 p) b'+' || at_byte (advance 1 p) b'-'
        then advance 2 p
        else advance 1 p)
    else ok tt p

module _ {F : Type 0} (float : Float F) where
  unfoldable pub parse_number : Parser → Reply (JsonValue F)
  parse_number start = do
    (_, p) ← consume_digits (skip_sign start)
    (_, p) ← fraction p
    (_, p) ← exponent p
    let text = take (p.pos - start.pos) start.rest
    if not (utf8_valid text)
        then fail invalid_number p
        else elim (float.parse text) [ none ↦ fail invalid_number start | some n ↦ ok (number n) p ]

-- What stands behind an element: the loop goes on, or the list ends.
unfoldable pub after_element : {A : Type 0} → ℕ → Parser → (Parser → Reply A) → A → Reply A
after_element close p next done =
    if at_byte p b','
    then next (advance 1 p)
    else if at_byte p close
    then ok done (advance 1 p)
    else if is_empty p.rest
    then fail unexpected_end p
    else fail unexpected_byte p

module _ {F : Type 0} where
  unfoldable pub parse_bool : Parser → Reply (JsonValue F)
  parse_bool p =
      if starts_with p.rest (codes "true")
      then ok (bool true) (advance 4 p)
      else if starts_with p.rest (codes "false")
      then ok (bool false) (advance 5 p)
      else fail unexpected_byte p

  unfoldable pub parse_null : Parser → Reply (JsonValue F)
  parse_null p =
      if starts_with p.rest (codes "null") then ok null (advance 4 p) else fail unexpected_byte p

  -- The loops of `parse_array` and `parse_object`, over what parses a value one level deeper. Each
  -- turn takes a byte, so fuel above the bytes left is enough.
  unfoldable pub items_loop :
      (Parser → Reply (JsonValue F)) → ℕ → Items F → Parser → Reply (Items F)
  items_loop value zero vs p = out_of_fuel
  items_loop value (suc fuel) vs p = do
    (v, p) ← value (skip_ws p)
    after_element b']' (skip_ws p) (items_loop value fuel (push_item vs v)) (push_item vs v)

  unfoldable pub members_loop :
      (Parser → Reply (JsonValue F)) → ℕ → Members F → Parser → Reply (Members F)
  members_loop value zero vs p = out_of_fuel
  members_loop value (suc fuel) vs p =
      if not (at_byte (skip_ws p) b'"') then fail unexpected_byte (skip_ws p) else do
        (key, p) ← parse_string (skip_ws p)
        (_, p) ← expect b':' (skip_ws p)
        (v, p) ← value (skip_ws p)
        after_element b'}' (skip_ws p) (members_loop value fuel (push_member vs key v))
            (push_member vs key v)

  unfoldable pub parse_array : (Parser → Reply (JsonValue F)) → ℕ → Parser → Reply (JsonValue F)
  parse_array value depth p = if ltb max_depth (depth + 1) then fail depth_exceeded p else do
    (_, p) ← expect b'[' p
    if at_byte (skip_ws p) b']' then ok (array no_items) (advance 1 (skip_ws p)) else do
      (vs, p) ← items_loop value (suc (length p.rest)) no_items (skip_ws p)
      ok (array vs) p

  unfoldable pub parse_object : (Parser → Reply (JsonValue F)) → ℕ → Parser → Reply (JsonValue F)
  parse_object value depth p = if ltb max_depth (depth + 1) then fail depth_exceeded p else do
    (_, p) ← expect b'{' p
    if at_byte (skip_ws p) b'}' then ok (object no_members) (advance 1 (skip_ws p)) else do
      (vs, p) ← members_loop value (suc (length p.rest)) no_members (skip_ws p)
      ok (object vs) p

module _ {F : Type 0} (float : Float F) where
  -- `parse_value` at that byte.
  unfoldable pub value_at : (Parser → Reply (JsonValue F)) → ℕ → Parser → ℕ → Reply (JsonValue F)
  value_at value depth p b =
      if b == b'{'
      then parse_object value depth p
      else if b == b'['
      then parse_array value depth p
      else if b == b'"'
      then (parse_string p >>= λ (s, p). ok (string s) p)
      else if b == b't' || b == b'f'
      then parse_bool p
      else if b == b'n'
      then parse_null p
      else if b == b'-' || is_ascii_digit b
      then parse_number float p
      else fail unexpected_byte p

  -- On fuel for the nesting: a value at the bound holds no other.
  unfoldable pub parse_value : ℕ → ℕ → Parser → Reply (JsonValue F)
  parse_value zero depth p = out_of_fuel
  parse_value (suc fuel) depth p = do
    (b, p) ← some_or (peek p) unexpected_end p
    value_at (parse_value fuel (depth + 1)) depth p b

  unfoldable pub parse : Bytes → Reply (JsonValue F)
  parse input = do
    (v, p) ← parse_value (suc max_depth) 0 (skip_ws (record { pos = 0; rest = input }))
    if is_empty (skip_ws p).rest then ok v (skip_ws p) else fail trailing_data (skip_ws p)
