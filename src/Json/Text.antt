-- ===== src/Json/Text.antt =====
-- crates/core/src/json.rs: strings, escapes and UTF-8.
use ferro_http.Base.{
  ℕ, zero, suc, ◌+◌, ◌-◌, ◌*◌, ◌/◌, ◌%◌, ◌^◌, not, ◌||◌, Option, none, some, [], ◌∷◌, ◌++◌, ltb,
  leb, ◌==◌, if◌then◌else◌, length, take, Bytes, within, utf8_valid,
}
pub mod Ends
use ferro_http.Json.{
  unexpected_end, invalid_string, invalid_escape, invalid_unicode, Parser, Reply, ok, out_of_fuel,
  ◌>>=◌, fail, some_or, peek, at_byte, advance, expect,
}

unfoldable pub utf8_len : ℕ → ℕ
utf8_len lead =
    if leb lead 0x7F
    then 1
    else if within 0xC0 0xDF lead
    then 2
    else if within 0xE0 0xEF lead
    then 3
    else if within 0xF0 0xF7 lead
    then 4
    else 0

-- `char::to_digit(16)`
unfoldable pub to_digit_16 : ℕ → Option ℕ
to_digit_16 b =
    if within b'0' b'9' b
    then some (b - b'0')
    else if within b'a' b'f' b
    then some (b - b'a' + 10)
    else if within b'A' b'F' b
    then some (b - b'A' + 10)
    else none

-- The digits still to read, over the value of a `u16`.
unfoldable pub read_hex : ℕ → ℕ → Parser → Reply ℕ
read_hex zero value p = ok value p
read_hex (suc n) value p = do
  (b, p) ← some_or (peek p) unexpected_end p
  (digit, p) ← some_or (to_digit_16 b) invalid_unicode p
  read_hex n ((value * 16 + digit) % 2 ^ 16) (advance 1 p)

unfoldable pub read_hex4 : Parser → Reply ℕ
read_hex4 p = read_hex 4 0 p

-- `char::from_u32`
unfoldable pub from_u32 : ℕ → Option ℕ
from_u32 c = if within 0xD800 0xDFFF c || ltb 0x10FFFF c then none else some c

-- `String::push`: the UTF-8 of a character.
unfoldable pub encode_utf8 : ℕ → Bytes
encode_utf8 c =
    if ltb c 0x80
    then c ∷ []
    else if ltb c 0x800
    then (0xC0 + c / 64) ∷ (0x80 + c % 64) ∷ []
    else if ltb c 0x10000
    then (0xE0 + c / 4096) ∷ (0x80 + c / 64 % 64) ∷ (0x80 + c % 64) ∷ []
    else (0xF0 + c / 262144) ∷ (0x80 + c / 4096 % 64) ∷ (0x80 + c / 64 % 64) ∷ (0x80 + c % 64) ∷ []

-- The second half of a surrogate pair, which has to follow at once.
unfoldable pub low_surrogate : ℕ → Parser → Reply ℕ
low_surrogate first p =
    if not (at_byte p b'\\')
    then fail invalid_unicode p
    else if not (at_byte (advance 1 p) b'u')
    then fail invalid_unicode (advance 1 p)
    else do
      (low, p) ← read_hex4 (advance 2 p)
      if not (within 0xDC00 0xDFFF low)
          then fail invalid_unicode p
          else ok (0x10000 + (first - 0xD800) * 2 ^ 10 + (low - 0xDC00)) p

unfoldable pub scalar : ℕ → Parser → Reply ℕ
scalar first p =
    if within 0xD800 0xDBFF first
    then low_surrogate first p
    else if within 0xDC00 0xDFFF first
    then fail invalid_unicode p
    else ok first p

unfoldable pub parse_unicode_escape : Parser → Bytes → Reply Bytes
parse_unicode_escape p out = do
  (first, p) ← read_hex4 p
  (c, p) ← scalar first p
  (ch, p) ← some_or (from_u32 c) invalid_unicode p
  ok (out ++ encode_utf8 ch) p

-- The byte that an escape of one letter stands for.
unfoldable pub simple_escape : ℕ → Option ℕ
simple_escape e =
    if e == b'"' || e == b'\\' || e == b'/'
    then some e
    else if e == b'b'
    then some 0x08
    else if e == b'f'
    then some 0x0C
    else if e == b'n'
    then some b'\n'
    else if e == b'r'
    then some b'\r'
    else if e == b't'
    then some b'\t'
    else none

unfoldable pub escape_of : ℕ → Parser → Bytes → Reply Bytes
escape_of e p out = elim (simple_escape e) [
  | some c ↦ ok (out ++ c ∷ []) p
  | none ↦ if e == b'u' then parse_unicode_escape p out else fail invalid_escape p
]

unfoldable pub parse_escape : Parser → Bytes → Reply Bytes
parse_escape p out = do (e, p) ← some_or (peek p) unexpected_end p; escape_of e (advance 1 p) out

-- A character that stands for itself. Errors are found behind its first byte.
unfoldable pub verbatim : ℕ → Parser → Bytes → (Bytes → Parser → Reply Bytes) → Reply Bytes
verbatim len p out next =
    if len == 0 || ltb (length p.rest) len
    then fail invalid_string (advance 1 p)
    else if not (utf8_valid (take len p.rest))
    then fail invalid_string (advance 1 p)
    else next (out ++ take len p.rest) (advance len p)

-- One turn of the loop of `parse_string` at that byte.
unfoldable pub string_turn : (Bytes → Parser → Reply Bytes) → Bytes → Parser → ℕ → Reply Bytes
string_turn next out p b =
    if b == b'"'
    then ok out (advance 1 p)
    else if b == b'\\'
    then (parse_escape (advance 1 p) out >>= λ (out, p). next out p)
    else if leb b 0x1F
    then fail invalid_string (advance 1 p)
    else verbatim (utf8_len b) p out next

-- Each turn takes a byte, so fuel above the bytes left is enough.
unfoldable pub string_loop : ℕ → Bytes → Parser → Reply Bytes
string_loop zero out p = out_of_fuel
string_loop (suc fuel) out p = do
  (b, p) ← some_or (peek p) unexpected_end p
  string_turn (string_loop fuel) out p b

unfoldable pub parse_string : Parser → Reply Bytes
parse_string p = do (_, p) ← expect b'"' p; string_loop (suc (length p.rest)) [] p
