-- ===== src/Base/Text.antt =====
-- What the source uses of Rust's `str`, `u8` and integer parsing and printing, over byte strings.
pub mod Utf8
pub mod Decimal
use ferro_http.Base.Tests.{ltb, leb, ◌==◌, if◌then◌else◌}
use ferro_http.Base.ByteStrings.{Bytes, within, bytes_eq}
use Prim.Native.Nat.{ℕ, zero, suc, ◌+◌, ◌-◌, ◌*◌, ◌/◌, ◌%◌, ◌^◌}
use mathlib.Core.Bool.{Bool, true, false, ◌&&◌, ◌||◌}
use mathlib.Core.Option.{Option, none, some}
use mathlib.Core.List.{List, [], ◌∷◌, ◌++◌, map}

-- `u64::MAX`, and `usize::MAX` on a 64-bit target.
abbrev pub u64_max : ℕ
u64_max = 2 ^ 64 - 1

abbrev pub u32_max : ℕ
u32_max = 2 ^ 32 - 1

-- Addition of `u64` and of `usize`, as a release build does it.
unfoldable pub wrapping_add : ℕ → ℕ → ℕ
wrapping_add a b = (a + b) % 2 ^ 64

-- `u8::is_ascii_digit`, `u8::is_ascii_alphabetic`, `u8::is_ascii_alphanumeric`
abbrev pub is_ascii_digit : ℕ → Bool
is_ascii_digit c = within b'0' b'9' c

abbrev pub is_ascii_alphabetic : ℕ → Bool
is_ascii_alphabetic c = within b'a' b'z' c || within b'A' b'Z' c

abbrev pub is_ascii_alphanumeric : ℕ → Bool
is_ascii_alphanumeric c = is_ascii_alphabetic c || is_ascii_digit c

-- `u8::to_ascii_lowercase`
unfoldable pub to_ascii_lowercase : ℕ → ℕ
to_ascii_lowercase c = if within b'A' b'Z' c then c + 32 else c

-- `eq_ignore_ascii_case` of `[u8]` and `str`
unfoldable pub eq_ignore_ascii_case : Bytes → Bytes → Bool
unfolding to_ascii_lowercase bytes_eq
eq_ignore_ascii_case a b = bytes_eq (map to_ascii_lowercase a) (map to_ascii_lowercase b)

-- `starts_with`
unfoldable pub starts_with : Bytes → Bytes → Bool
starts_with xs [] = true
starts_with [] (n ∷ ns) = false
starts_with (x ∷ xs) (n ∷ ns) = x == n && starts_with xs ns

-- `strip_prefix`
unfoldable pub strip_prefix : Bytes → Bytes → Option Bytes
strip_prefix xs [] = some xs
strip_prefix [] (n ∷ ns) = none
strip_prefix (x ∷ xs) (n ∷ ns) = if x == n then strip_prefix xs ns else none

-- `split_once` at a byte: what stands before its first occurrence, and what stands behind it.
unfoldable pub split_once : ℕ → Bytes → Option (Bytes × Bytes)
split_once d [] = none
split_once d (c ∷ cs) =
    if c == d
    then some ([], cs)
    else elim (split_once d cs) [ none ↦ none | some (a, b) ↦ some (c ∷ a, b) ]

-- `split` at a byte: the pieces between its occurrences, at least one.
abbrev pub cons_head : ℕ → List Bytes → List Bytes
cons_head c [] = (c ∷ []) ∷ []
cons_head c (p ∷ ps) = (c ∷ p) ∷ ps

unfoldable pub split : ℕ → Bytes → List Bytes
split d [] = [] ∷ []
split d (c ∷ cs) = if c == d then [] ∷ split d cs else cons_head c (split d cs)

-- `core::str::from_utf8`: the number of continuation bytes after a lead byte, and the range of the
-- first of them.
utf8_lead : ℕ → Option (ℕ × ℕ × ℕ)
utf8_lead c =
    if leb c 0x7F
    then some (0, 0, 0)
    else if within 0xC2 0xDF c
    then some (1, 0x80, 0xBF)
    else if c == 0xE0
    then some (2, 0xA0, 0xBF)
    else if c == 0xED
    then some (2, 0x80, 0x9F)
    else if within 0xE1 0xEF c
    then some (2, 0x80, 0xBF)
    else if c == 0xF0
    then some (3, 0x90, 0xBF)
    else if within 0xF1 0xF3 c
    then some (3, 0x80, 0xBF)
    else if c == 0xF4
    then some (3, 0x80, 0x8F)
    else none

utf8_from : ℕ → ℕ → ℕ → Bytes → Bool
utf8_from zero lo hi [] = true
utf8_from (suc n) lo hi [] = false
utf8_from zero lo hi (c ∷ cs) = elim (utf8_lead c) [
  | none ↦ false
  | some (n, l, h) ↦ utf8_from n l h cs
]
utf8_from (suc n) lo hi (c ∷ cs) = within lo hi c && utf8_from n 0x80 0xBF cs

unfoldable pub utf8_valid : Bytes → Bool
unfolding utf8_from utf8_lead
utf8_valid = utf8_from 0 0 0

-- The length in bytes of the white-space character that the text starts with, 0 where it starts
-- with none: U+0009 to U+000D, U+0020, U+0085, U+00A0, U+1680, U+2000 to U+200A, U+2028, U+2029,
-- U+202F, U+205F, U+3000.
white_len : Bytes → ℕ
white_len [] = 0
white_len (a ∷ []) = if within 9 13 a || a == b' ' then 1 else 0
white_len (a ∷ b ∷ []) =
    if within 9 13 a || a == b' ' then 1 else if a == 0xC2 && (b == 0x85 || b == 0xA0) then 2 else 0
white_len (a ∷ b ∷ c ∷ _) =
    if within 9 13 a || a == b' '
    then 1
    else if a == 0xC2 && (b == 0x85 || b == 0xA0)
    then 2
    else if a == 0xE1 && b == 0x9A && c == 0x80
    then 3
    else if a == 0xE2
        && (b == 0x80 && (within 0x80 0x8A c || c == 0xA8 || c == 0xA9 || c == 0xAF)
            || b == 0x81 && c == 0x9F)
    then 3
    else if a == 0xE3 && b == 0x80 && c == 0x80
    then 3
    else 0

-- `trim_start`, after a number of bytes still to skip.
trim_start_from : ℕ → Bytes → Bytes
trim_start_from n [] = []
trim_start_from (suc n) (c ∷ cs) = trim_start_from n cs
trim_start_from zero (c ∷ cs) = elim (white_len (c ∷ cs)) [
  | zero ↦ c ∷ cs
  | suc k ↦ trim_start_from k cs
]

-- Whether only white space is left, after a number of bytes still to skip.
all_white_from : ℕ → Bytes → Bool
all_white_from n [] = true
all_white_from (suc n) (c ∷ cs) = all_white_from n cs
all_white_from zero (c ∷ cs) = elim (white_len (c ∷ cs)) [
  | zero ↦ false
  | suc k ↦ all_white_from k cs
]

-- The bytes inside a character are no lead bytes, so white space is found at characters only.
trim_end : Bytes → Bytes
trim_end [] = []
trim_end (c ∷ cs) = if all_white_from 0 (c ∷ cs) then [] else c ∷ trim_end cs

-- `str::trim`
unfoldable pub trim : Bytes → Bytes
unfolding trim_start_from trim_end all_white_from white_len
trim s = trim_end (trim_start_from 0 s)

-- The digits of `parse::<u64>()`: `none` at a byte that is no digit, or past the greatest value.
unfoldable pub parse_digits : ℕ → ℕ → Bytes → Option ℕ
parse_digits most acc [] = some acc
parse_digits most acc (c ∷ cs) =
    let rest = parse_digits most (acc * 10 + (c - b'0')) cs in
    if is_ascii_digit c && leb (acc * 10 + (c - b'0')) most then rest else none

-- `parse` of an unsigned type with that greatest value: one `+` may stand in front.
unfoldable pub parse_uint : ℕ → Bytes → Option ℕ
unfolding parse_digits
parse_uint most [] = none
parse_uint most (c ∷ []) = parse_digits most 0 (c ∷ [])
parse_uint most (c ∷ d ∷ cs) = parse_digits most 0 (if c == b'+' then d ∷ cs else c ∷ d ∷ cs)

-- `{}` of an unsigned integer, on fuel: more than the number is enough.
unfoldable pub dec_digits : ℕ → ℕ → Bytes
dec_digits zero n = []
dec_digits (suc f) n =
    let high = dec_digits f (n / 10) in
    if ltb n 10 then (n + b'0') ∷ [] else high ++ (n % 10 + b'0') ∷ []

unfoldable pub print_dec : ℕ → Bytes
unfolding dec_digits
print_dec n = dec_digits (suc n) n

-- `{:x}` of a `u64`: its digits in base 16, sixteen at most.
unfoldable pub hex_digits : ℕ → ℕ → Bytes
hex_digits zero n = []
hex_digits (suc fuel) n =
    let digit = n % 16 in
    let rest = hex_digits fuel (n / 16) in
    (if n / 16 == 0 then [] else rest) ++ (if ltb digit 10 then digit + 48 else digit + 87) ∷ []

unfoldable pub print_hex : ℕ → Bytes
print_hex n = hex_digits 16 n
