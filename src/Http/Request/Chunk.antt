-- ===== src/Http/Request/Chunk.antt =====
-- crates/core/src/http/request.rs: decoding a chunked body. `usize` has 64 bits, and its additions
-- wrap, as the release profile compiles them.
pub mod Stable
pub mod Overflow
pub mod Total
pub mod Bounds
pub mod Steps
use ferro_http.Http.Request.{
  Version, http10, http11, Header, Request, Result, ok, err, panic, out_of_fuel, ◌>>=◌, ◌>>◌, guard,
  ok_or, header_is, ParseError, head_too_large, too_many_headers, malformed_request_line,
  unknown_method, target_too_long, unsupported_version, bare_cr, bad_host, malformed_header,
  bad_content_length, conflicting_framing, unsupported_transfer_encoding, malformed_chunk,
  body_too_large, find_header, header, path, keep_alive, absolute_form_path, split_scheme,
  >>=-eq-ok, guard-eq-ok, ok_or-eq-ok, ok-injective,
}
use ferro_http.Base.{
  ℕ, zero, suc, ◌+◌, ◌-◌, ◌*◌, ◌/◌, ◌%◌, ◌^◌, ◌≤◌, ◌<◌, min, ◌≡◌, refl, sym, ap, ◌∙◌, ◌≢◌, ◌↔◌, ◌⊎◌,
  inl, inr, Bool, true, false, not, ◌&&◌, ◌||◌, Option, none, some, List, [], ◌∷◌, ◌++◌, map,
  append_assoc, append-nil, arith, ltb, leb, ◌==◌, if◌then◌else◌, ltb→lt, lt→ltb, leb→le, ==_iff,
  Bool-cases, Option-cases, length, get_elem?, get_or, replicate, take, drop, length-append,
  length-take, length-drop, take-append-drop, take-append, drop-append, Bytes, codes, within,
  bytes_eq, bytes_eq_iff, is_empty, all, any, filter, position, find, u64_max, u32_max,
  is_ascii_digit, is_ascii_alphabetic, is_ascii_alphanumeric, eq_ignore_ascii_case, starts_with,
  strip_prefix, split_once, split, utf8_valid, trim, parse_digits, parse_uint, dec_digits,
  print_dec, to_ascii_lowercase, wrapping_add,
}
use ferro_http.Http.Request.Scan.{find_subslice, crlf, slice}

abbrev pub max_chunk_line_bytes : ℕ
max_chunk_line_bytes = 8 * 1024

pub data ChunkOutcome : Type 0 where
  partial : ChunkOutcome
  complete : Bytes → ℕ → ChunkOutcome

unfoldable pub hex_digit : ℕ → Option ℕ
hex_digit b =
    if within b'0' b'9' b
    then some (b - b'0')
    else if within b'a' b'f' b
    then some (b - b'a' + 10)
    else if within b'A' b'F' b
    then some (b - b'A' + 10)
    else none

-- The loop of `parse_hex`: a checked multiplication, then a checked addition.
unfoldable pub parse_hex_from : ℕ → Bytes → Result ℕ
parse_hex_from value [] = ok value
parse_hex_from value (b ∷ bytes) = do
  digit ← ok_or (hex_digit b) malformed_chunk
  guard (leb (value * 16) u64_max) malformed_chunk
  guard (leb (value * 16 + digit) u64_max) malformed_chunk
  parse_hex_from (value * 16 + digit) bytes

unfoldable pub parse_hex : Bytes → Result ℕ
parse_hex bytes = if is_empty bytes then err malformed_chunk else parse_hex_from 0 bytes

-- What an unterminated line yields: the error past the bound, else more bytes are needed.
abbrev pub unterminated : ℕ → Result ChunkOutcome
unterminated pending = if ltb max_chunk_line_bytes pending then err malformed_chunk else ok partial

-- The loop over the trailer lines. Each takes three bytes at least, so fuel above the bytes left is
-- enough.
unfoldable pub skip_trailers : ℕ → Bytes → ℕ → Bytes → Result ChunkOutcome
skip_trailers zero buf tpos body = out_of_fuel
skip_trailers (suc f) buf tpos body = elim (find_subslice (drop tpos buf) crlf) [
  | none ↦ unterminated (length buf - tpos)
  | some zero ↦ ok (complete body (tpos + 2))
  | some (suc i) ↦ skip_trailers f buf (tpos + suc i + 2) body
]

-- The size line without its extensions.
abbrev pub size_token : Bytes → Bytes
size_token line = elim (split_once b';' line) [ none ↦ line | some (tok, _) ↦ tok ]

-- The chunk of that size at `data_start`, and its CRLF; then the loop goes on with the body so far.
unfoldable pub take_chunk :
    Bytes → ℕ → Bytes → ℕ → ℕ → (ℕ → Bytes → Result ChunkOutcome) → Result ChunkOutcome
take_chunk buf max_body body data_start size next =
    let data_end = wrapping_add data_start size in
    if ltb (length buf) (wrapping_add data_end 2) then ok partial else do
      terminator ← slice buf data_end (wrapping_add data_end 2)
      guard (bytes_eq terminator crlf) malformed_chunk
      chunk ← slice buf data_start data_end
      guard (leb (length (body ++ chunk)) max_body) body_too_large
      next (wrapping_add data_end 2) (body ++ chunk)

-- The loop over the chunks.
unfoldable pub decode_chunks : ℕ → Bytes → ℕ → ℕ → Bytes → Result ChunkOutcome
decode_chunks zero buf max_body pos body = out_of_fuel
decode_chunks (suc f) buf max_body pos body = elim (find_subslice (drop pos buf) crlf) [
  | none ↦ unterminated (length buf - pos)
  | some line_len ↦ do
    size ← parse_hex (size_token (take line_len (drop pos buf)))
    let data_start = pos + line_len + 2
    elim size [
      | zero ↦ skip_trailers (suc (length buf)) buf data_start body
      | suc n ↦ take_chunk buf max_body body data_start (suc n) (decode_chunks f buf max_body)
    ]
]

unfoldable pub decode_chunked : Bytes → ℕ → Result ChunkOutcome
decode_chunked buf max_body = decode_chunks (suc (length buf)) buf max_body 0 []
