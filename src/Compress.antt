-- ===== src/Compress.antt =====
-- crates/core/src/compress.rs: the gzip container. The DEFLATE encoder of miniz_oxide is a parameter.
pub mod Container
use ferro_http.Base.{
  ℕ, zero, suc, ◌+◌, ◌-◌, ◌*◌, ◌/◌, ◌%◌, ◌^◌, ◌≤◌, ◌<◌, min, ◌≡◌, refl, sym, ap, ◌∙◌, ◌≢◌, ◌↔◌, ◌⊎◌,
  inl, inr, Bool, true, false, not, ◌&&◌, ◌||◌, Option, none, some, List, [], ◌∷◌, ◌++◌, map,
  append_assoc, append-nil, arith, ltb, leb, ◌==◌, if◌then◌else◌, ltb→lt, lt→ltb, leb→le, ==_iff,
  Bool-cases, Option-cases, length, get_elem?, get_or, replicate, take, drop, length-append,
  length-take, length-drop, take-append-drop, take-append, drop-append, Bytes, codes, within,
  bytes_eq, bytes_eq_iff, is_empty, all, any, filter, position, find, u64_max, u32_max,
  is_ascii_digit, is_ascii_alphabetic, is_ascii_alphanumeric, eq_ignore_ascii_case, starts_with,
  strip_prefix, split_once, split, utf8_valid, trim, parse_digits, parse_uint, dec_digits,
  print_dec, to_ascii_lowercase, wrapping_add, print_hex, cons_head, hex_digits,
}
use Prim.Native.Nat.{bit_and, bit_xor}

-- One turn of the loop over the bits.
unfoldable pub crc_bit : ℕ → ℕ
crc_bit crc =
    let mask = (2 ^ 32 - bit_and crc 1) % 2 ^ 32 in bit_xor (crc / 2) (bit_and 0xedb88320 mask)

unfoldable pub crc_bits : ℕ → ℕ → ℕ
crc_bits zero crc = crc
crc_bits (suc n) crc = crc_bits n (crc_bit crc)

unfoldable pub crc_bytes : ℕ → Bytes → ℕ
crc_bytes crc [] = crc
crc_bytes crc (b ∷ bs) = crc_bytes (crc_bits 8 (bit_xor crc b)) bs

unfoldable pub crc32 : Bytes → ℕ
crc32 input = bit_xor (crc_bytes 0xffffffff input) 0xffffffff

-- `to_le_bytes` of a `u32`
abbrev pub le_bytes : ℕ → Bytes
le_bytes n = n % 256 ∷ n / 256 % 256 ∷ n / 65536 % 256 ∷ n / 16777216 % 256 ∷ []

abbrev pub gzip_header : Bytes
gzip_header = 0x1f ∷ 0x8b ∷ 0x08 ∷ 0 ∷ 0 ∷ 0 ∷ 0 ∷ 0 ∷ 0 ∷ 0xff ∷ []

unfoldable pub gzip_encode : (Bytes → Bytes) → Bytes → Bytes
gzip_encode deflate input =
    gzip_header ++ (deflate input ++ (le_bytes (crc32 input) ++ le_bytes (length input % 2 ^ 32)))
