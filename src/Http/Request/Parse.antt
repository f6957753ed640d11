-- ===== src/Http/Request/Parse.antt =====
-- crates/core/src/http/request.rs: `parse_with` and `expect_action`.
pub mod Stable
pub mod Inside
pub mod Bounds
pub mod Total
pub mod Fields
use ferro_http.Http.Request.{
  Version, http10, http11, Header, Request, Result, ok, err, panic, out_of_fuel, ◌>>=◌, ◌>>◌, guard,
  ok_or, header_is, ParseError, head_too_large, too_many_headers, malformed_request_line,
  unknown_method, target_too_long, unsupported_version, bare_cr, bad_host, malformed_header,
  bad_content_length, conflicting_framing, unsupported_transfer_encoding, malformed_chunk,
  body_too_large, find_header, header, path, keep_alive, absolute_form_path, split_scheme,
  >>=-eq-ok, guard-eq-ok, ok_or-eq-ok, ok-injective,
}
use ferro_http.Base.{
  ℕ, zero, suc, ◌+◌, ◌-◌, ◌*◌, ◌/◌, ◌%◌, ◌^◌, ◌≤◌, ◌<◌, min, ◌≡◌, refl, sym, ap, ◌∙◌, ◌≢◌, ◌↔◌, ◌⊎◌,
  inl, inr, Bool, true, false, not, ◌&&◌, ◌||◌, Option, none, some, List, [], ◌∷◌, ◌++◌, map,
  append_assoc, append-nil, arith, ltb, leb, ◌==◌, if◌then◌else◌, ltb→lt, lt→ltb, leb→le, ==_iff,
  Bool-cases, Option-cases, length, get_elem?, get_or, replicate, take, drop, length-append,
  length-take, length-drop, take-append-drop, take-append, drop-append, Bytes, codes, within,
  bytes_eq, bytes_eq_iff, is_empty, all, any, filter, position, find, u64_max, u32_max,
  is_ascii_digit, is_ascii_alphabetic, is_ascii_alphanumeric, eq_ignore_ascii_case, starts_with,
  strip_prefix, split_once, split, utf8_valid, trim, parse_digits, parse_uint, dec_digits,
  print_dec, to_ascii_lowercase, wrapping_add, print_hex, cons_head, hex_digits,
}
use mathlib.Core.Option
use ferro_http.Http.Method.{Method}
use ferro_http.Http.Request.Scan.{
  find_subslice, crlf_crlf, split_crlf, has_bare_cr, trim_ows, slice,
}
use ferro_http.Http.Request.Line.{parse_request_line}
use ferro_http.Http.Request.Fields.{
  parse_headers, validate_host, Framing, fixed, chunked, body_framing,
}
use ferro_http.Http.Request.Chunk.{ChunkOutcome, partial, complete, decode_chunked}

abbrev pub max_head_bytes : ℕ
max_head_bytes = 16 * 1024

abbrev pub max_body_bytes : ℕ
max_body_bytes = 1024 * 1024

pub data Parsed : Type 0 where
  need_more : Parsed
  done : Request → ℕ → Parsed

-- What the head says: the request but its body, and the framing of the body.
pub record Head : Type 0 where
  pub method : Method
  pub target : Bytes
  pub version : Version
  pub headers : List Header
  pub framing : Framing

abbrev pub finish : Head → Bytes → Request
finish h body = record {
  method = h.method;
  target = h.target;
  version = h.version;
  headers = h.headers;
  body = body;
}

-- The lines of the head; `split_crlf` gives one line at least.
unfoldable pub parse_head_lines : List Bytes → Result Head
parse_head_lines [] = err malformed_request_line
parse_head_lines (line ∷ lines) = do
  (method, target, version) ← parse_request_line line
  headers ← parse_headers lines []
  validate_host headers version
  framing ← body_framing headers
  ok (record {
    method = method;
    target = target;
    version = version;
    headers = headers;
    framing = framing;
  })

-- The lines, where the loop that cuts them ends.
abbrev pub lines_of : Option (List Bytes) → Result (List Bytes)
lines_of none = out_of_fuel
lines_of (some lines) = ok lines

-- The head whose blank line begins at that offset.
unfoldable pub parse_head : Bytes → ℕ → Result Head
parse_head buf end = do
  guard (leb end max_head_bytes) head_too_large
  guard (not (has_bare_cr (take (end + 4) buf))) bare_cr
  lines ← lines_of (split_crlf (take end buf))
  parse_head_lines lines

abbrev pub after_chunks : Head → ℕ → ChunkOutcome → Parsed
after_chunks h head_end partial = need_more
after_chunks h head_end (complete body consumed) = done (finish h body) (head_end + consumed)

unfoldable pub parse_body : Bytes → ℕ → ℕ → Head → Framing → Result Parsed
parse_body buf max_body head_end h (fixed len) = do
  guard (leb len max_body) body_too_large
  if ltb (length buf) (wrapping_add head_end len) then ok need_more else do
    body ← slice buf head_end (wrapping_add head_end len)
    ok (done (finish h body) (wrapping_add head_end len))
parse_body buf max_body head_end h chunked = do
  outcome ← decode_chunked (drop head_end buf) max_body
  ok (after_chunks h head_end outcome)

unfoldable pub parse_with : Bytes → ℕ → Result Parsed
parse_with buf max_body = elim (find_subslice buf crlf_crlf) [
  | none ↦ do guard (leb (length buf) max_head_bytes) head_too_large; ok need_more
  | some end ↦ do h ← parse_head buf end; parse_body buf max_body (end + 4) h h.framing
]

pub parse : Bytes → Result Parsed
parse buf = parse_with buf max_body_bytes

pub data ExpectAction : Type 0 where
  nothing proceed unsupported : ExpectAction

unfoldable pub expect_in : List Bytes → ExpectAction
expect_in [] = nothing
expect_in (line ∷ lines) = elim (split_once b':' line) [
  | none ↦ expect_in lines
  | some (name, value) ↦
      if eq_ignore_ascii_case name (codes "expect")
      then if eq_ignore_ascii_case (trim_ows value) (codes "100-continue")
        then proceed
        else unsupported
      else expect_in lines
]

abbrev expect_after_line : List Bytes → ExpectAction
expect_after_line [] = nothing
expect_after_line (_ ∷ lines) = expect_in lines

-- `none` where the loop that cuts the lines does not end.
unfoldable pub expect_action : Bytes → Option ExpectAction
expect_action buf = elim (find_subslice buf crlf_crlf) [
  | none ↦ some nothing
  | some end ↦ Option.map expect_after_line (split_crlf (take end buf))
]
