-- ===== src/Json.antt =====
-- crates/core/src/json.rs: values, their accessors, errors, and the parser's state and result. A
-- number is a value of a parameter that stands for `f64`.
use ferro_http.Base.{
  ℕ, zero, suc, ◌+◌, ◌-◌, ◌*◌, ◌/◌, ◌%◌, ◌^◌, ◌≤◌, ◌<◌, min, ◌≡◌, refl, sym, ap, ◌∙◌, ◌≢◌, ◌↔◌, ◌⊎◌,
  inl, inr, Bool, true, false, not, ◌&&◌, ◌||◌, Option, none, some, List, [], ◌∷◌, ◌++◌, map,
  append_assoc, append-nil, arith, ltb, leb, ◌==◌, if◌then◌else◌, ltb→lt, lt→ltb, leb→le, ==_iff,
  Bool-cases, Option-cases, length, get_elem?, get_or, replicate, take, drop, length-append,
  length-take, length-drop, take-append-drop, take-append, drop-append, Bytes, codes, within,
  bytes_eq, bytes_eq_iff, is_empty, all, any, filter, position, find, u64_max, u32_max,
  is_ascii_digit, is_ascii_alphabetic, is_ascii_alphanumeric, eq_ignore_ascii_case, starts_with,
  strip_prefix, split_once, split, utf8_valid, trim, parse_digits, parse_uint, dec_digits,
  print_dec, to_ascii_lowercase, wrapping_add, print_hex, cons_head, hex_digits,
}
pub mod Bounds
pub mod Text
pub mod Parse

-- `f64`: `str::parse`, the `as` casts to and from `u64`, and the comparisons.
pub record Float (F : Type 0) : Type 0 where
  pub parse : Bytes → Option F
  pub of_u64 : ℕ → F
  pub to_u64 : F → ℕ
  pub le : F → F → Bool
  pub eq : F → F → Bool

module _ (F : Type 0) where
  -- A list of values and a list of members stand in the block, since a type cannot hold itself
  -- inside another.
  mutual
    pub data JsonValue : Type 0 where
      null : JsonValue
      bool : Bool → JsonValue
      number : F → JsonValue
      string : Bytes → JsonValue
      array : Items → JsonValue
      object : Members → JsonValue

    pub data Items : Type 0 where
      no_items : Items
      item : JsonValue → Items → Items

    pub data Members : Type 0 where
      no_members : Members
      member : Bytes → JsonValue → Members → Members

module _ {F : Type 0} where
  -- `Vec::push`
  abbrev pub push_item : Items F → JsonValue F → Items F
  push_item no_items v = item v no_items
  push_item (item w vs) v = item w (push_item vs v)

  abbrev pub push_member : Members F → Bytes → JsonValue F → Members F
  push_member no_members k v = member k v no_members
  push_member (member l w vs) k v = member l w (push_member vs k v)

  unfoldable pub find_member : Bytes → Members F → Option (JsonValue F)
  find_member key no_members = none
  find_member key (member k v vs) = if bytes_eq k key then some v else find_member key vs

  unfoldable pub get : JsonValue F → Bytes → Option (JsonValue F)
  get (object vs) key = find_member key vs
  get _ key = none

  abbrev pub as_bool : JsonValue F → Option Bool
  as_bool (bool b) = some b
  as_bool _ = none

  abbrev pub as_str : JsonValue F → Option Bytes
  as_str (string s) = some s
  as_str _ = none

  abbrev pub as_array : JsonValue F → Option (Items F)
  as_array (array vs) = some vs
  as_array _ = none

  -- The value is between 0 and `u64::MAX as f64`, and the cast to `u64` and back keeps it.
  unfoldable pub as_u64 : Float F → JsonValue F → Option ℕ
  as_u64 float (number n) =
      if float.le (float.of_u64 0) n
        && float.le n (float.of_u64 u64_max)
        && float.eq (float.of_u64 (float.to_u64 n)) n
      then some (float.to_u64 n)
      else none
  as_u64 float _ = none

pub data JsonErrorKind : Type 0 where
  unexpected_end unexpected_byte invalid_number invalid_string invalid_escape : JsonErrorKind
  invalid_unicode depth_exceeded trailing_data : JsonErrorKind

pub record JsonError : Type 0 where
  pub kind : JsonErrorKind
  pub offset : ℕ

abbrev pub kind_text : JsonErrorKind → Bytes
kind_text unexpected_end = codes "unexpected end of input"
kind_text unexpected_byte = codes "unexpected byte"
kind_text invalid_number = codes "invalid number"
kind_text invalid_string = codes "invalid string"
kind_text invalid_escape = codes "invalid escape sequence"
kind_text invalid_unicode = codes "invalid \\u escape"
kind_text depth_exceeded = codes "nesting too deep"
kind_text trailing_data = codes "trailing data after value"

-- `Display` of `JsonError`
unfoldable pub show_json_error : JsonError → Bytes
show_json_error e = kind_text e.kind ++ codes " at byte " ++ print_dec e.offset

-- The parser as its position and the bytes from there on, which are all that it reads.
pub record Parser : Type 0 where
  pub pos : ℕ
  pub rest : Bytes

-- What a step of the parser yields, with the parser after it.
pub data Reply (A : Type 0) : Type 0 where
  ok : A → Parser → Reply A
  err : JsonError → Reply A
  out_of_fuel : Reply A

infixl 5 ◌>>=◌
abbrev pub ◌>>=◌ : {A B : Type 0} → Reply A → (A × Parser → Reply B) → Reply B
ok a p >>= next = next (a, p)
err e >>= next = err e
out_of_fuel >>= next = out_of_fuel

-- `Err(self.err(kind))`
abbrev pub fail : {A : Type 0} → JsonErrorKind → Parser → Reply A
fail k p = err (record { kind = k; offset = p.pos })

-- `ok_or_else(|| self.err(kind))?`
abbrev pub some_or : {A : Type 0} → Option A → JsonErrorKind → Parser → Reply A
some_or none k p = fail k p
some_or (some a) k p = ok a p

abbrev pub peek_of : Bytes → Option ℕ
peek_of [] = none
peek_of (b ∷ bs) = some b

abbrev pub peek : Parser → Option ℕ
peek p = peek_of p.rest

-- `self.peek() == Some(b)`
abbrev pub at_byte_of : Bytes → ℕ → Bool
at_byte_of [] b = false
at_byte_of (c ∷ bs) b = c == b

abbrev pub at_byte : Parser → ℕ → Bool
at_byte p b = at_byte_of p.rest b

-- `self.pos += n`
abbrev pub advance : ℕ → Parser → Parser
advance n p = record { pos = p.pos + n; rest = drop n p.rest }

abbrev pub is_ws : ℕ → Bool
is_ws b = b == b' ' || b == b'\t' || b == b'\n' || b == b'\r'

unfoldable pub skip_ws_from : ℕ → Bytes → Parser
skip_ws_from pos [] = record { pos = pos; rest = [] }
skip_ws_from pos (b ∷ bs) =
    if is_ws b then skip_ws_from (suc pos) bs else record { pos = pos; rest = b ∷ bs }

unfoldable pub skip_ws : Parser → Parser
skip_ws p = skip_ws_from p.pos p.rest

unfoldable pub expect : ℕ → Parser → Reply (Unit {0})
expect b p =
    if at_byte p b
    then ok tt (advance 1 p)
    else if is_empty p.rest
    then fail unexpected_end p
    else fail unexpected_byte p
