-- ===== src/Auth.antt =====
-- crates/std-server/src/webui/sha256.rs: HTTP Basic credentials, base64 and the comparison of digests.
pub mod Sha256
pub mod Basic
use ferro_http.Base.{
  ℕ, zero, suc, ◌+◌, ◌-◌, ◌*◌, ◌/◌, ◌%◌, ◌^◌, ◌≤◌, ◌<◌, min, ◌≡◌, refl, sym, ap, ◌∙◌, ◌≢◌, ◌↔◌, ◌⊎◌,
  inl, inr, Bool, true, false, not, ◌&&◌, ◌||◌, Option, none, some, List, [], ◌∷◌, ◌++◌, map,
  append_assoc, append-nil, arith, ltb, leb, ◌==◌, if◌then◌else◌, ltb→lt, lt→ltb, leb→le, ==_iff,
  Bool-cases, Option-cases, length, get_elem?, get_or, replicate, take, drop, length-append,
  length-take, length-drop, take-append-drop, take-append, drop-append, Bytes, codes, within,
  bytes_eq, bytes_eq_iff, is_empty, all, any, filter, position, find, u64_max, u32_max,
  is_ascii_digit, is_ascii_alphabetic, is_ascii_alphanumeric, eq_ignore_ascii_case, starts_with,
  strip_prefix, split_once, split, utf8_valid, trim, parse_digits, parse_uint, dec_digits,
  print_dec, to_ascii_lowercase, wrapping_add, print_hex, cons_head, hex_digits,
}
use Prim.Native.Nat.{bit_or, bit_xor}
use ferro_http.Base.Optional.{◌>>=◌}

-- `val` of `base64_decode`
unfoldable pub base64_value : ℕ → Option ℕ
base64_value c =
    if within b'A' b'Z' c
    then some (c - b'A')
    else if within b'a' b'z' c
    then some (c - b'a' + 26)
    else if within b'0' b'9' c
    then some (c - b'0' + 52)
    else if c == b'+'
    then some 62
    else if c == b'/'
    then some 63
    else none

-- The three bytes of a group of four values, each from two of them, as `u8`.
abbrev pub first_byte : ℕ → ℕ → ℕ
first_byte a b = bit_or (a * 2 ^ 2 % 2 ^ 8) (b / 2 ^ 4)

abbrev pub second_byte : ℕ → ℕ → ℕ
second_byte b c = bit_or (b * 2 ^ 4 % 2 ^ 8) (c / 2 ^ 2)

abbrev pub third_byte : ℕ → ℕ → ℕ
third_byte c d = bit_or (c * 2 ^ 6 % 2 ^ 8) d

-- `chunks(4)`
unfoldable pub decode_groups : Bytes → Option Bytes
decode_groups [] = some []
decode_groups (x ∷ []) = none
decode_groups (x ∷ y ∷ []) = do a ← base64_value x; b ← base64_value y; some (first_byte a b ∷ [])
decode_groups (x ∷ y ∷ z ∷ []) = do
  a ← base64_value x
  b ← base64_value y
  c ← base64_value z
  some (first_byte a b ∷ second_byte b c ∷ [])
decode_groups (x ∷ y ∷ z ∷ w ∷ rest) = do
  a ← base64_value x
  b ← base64_value y
  c ← base64_value z
  d ← base64_value w
  others ← decode_groups rest
  some (first_byte a b ∷ second_byte b c ∷ third_byte c d ∷ others)

unfoldable pub base64_decode : Bytes → Option Bytes
base64_decode input = decode_groups (filter (λ b. not (b == b'=')) input)

-- The differences of the bytes, gathered in a `u8`.
unfoldable pub gathered : ℕ → Bytes → Bytes → ℕ
gathered diff (x ∷ xs) (y ∷ ys) = gathered (bit_or diff (bit_xor x y)) xs ys
gathered diff _ _ = diff

unfoldable pub constant_time_eq : Bytes → Bytes → Bool
constant_time_eq a b = if not (length a == length b) then false else gathered 0 a b == 0
