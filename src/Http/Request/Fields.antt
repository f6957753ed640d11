-- ===== src/Http/Request/Fields.antt =====
-- crates/core/src/http/request.rs: header fields, the Host rule and the framing of the body.
pub mod Laws
use ferro_http.Http.Request.{
  Version, http10, http11, Header, Request, Result, ok, err, panic, out_of_fuel, ◌>>=◌, ◌>>◌, guard,
  ok_or, header_is, ParseError, head_too_large, too_many_headers, malformed_request_line,
  unknown_method, target_too_long, unsupported_version, bare_cr, bad_host, malformed_header,
  bad_content_length, conflicting_framing, unsupported_transfer_encoding, malformed_chunk,
  body_too_large, find_header, header, path, keep_alive, absolute_form_path, split_scheme,
  >>=-eq-ok, guard-eq-ok, ok_or-eq-ok, ok-injective,
}
use ferro_http.Base.{
  ℕ, zero, suc, ◌+◌, ◌-◌, ◌*◌, ◌/◌, ◌%◌, ◌^◌, ◌≤◌, ◌<◌, min, ◌≡◌, refl, sym, ap, ◌∙◌, ◌≢◌, ◌↔◌, ◌⊎◌,
  inl, inr, Bool, true, false, not, ◌&&◌, ◌||◌, Option, none, some, List, [], ◌∷◌, ◌++◌, map,
  append_assoc, append-nil, arith, ltb, leb, ◌==◌, if◌then◌else◌, ltb→lt, lt→ltb, leb→le, ==_iff,
  Bool-cases, Option-cases, length, get_elem?, get_or, replicate, take, drop, length-append,
  length-take, length-drop, take-append-drop, take-append, drop-append, Bytes, codes, within,
  bytes_eq, bytes_eq_iff, is_empty, all, any, filter, position, find, u64_max, u32_max,
  is_ascii_digit, is_ascii_alphabetic, is_ascii_alphanumeric, eq_ignore_ascii_case, starts_with,
  strip_prefix, split_once, split, utf8_valid, trim, parse_digits, parse_uint, dec_digits,
  print_dec, to_ascii_lowercase,
}
use ferro_http.Http.Request.Scan.{is_token_byte, trim_ows}

abbrev pub max_headers : ℕ
max_headers = 64

unfoldable pub parse_header_line : Bytes → Result Header
parse_header_line line = do
  (name, value) ← ok_or (split_once b':' line) malformed_header
  guard (not (is_empty name || not (all is_token_byte name))) malformed_header
  guard (utf8_valid name) malformed_header
  guard (utf8_valid (trim_ows value)) malformed_header
  ok (record { name = name; value = trim_ows value })

-- The loop over the header lines, with the headers so far.
unfoldable pub parse_headers : List Bytes → List Header → Result (List Header)
parse_headers [] headers = ok headers
parse_headers (line ∷ lines) headers = do
  guard (not (is_empty line)) malformed_header
  guard (ltb (length headers) max_headers) too_many_headers
  h ← parse_header_line line
  parse_headers lines (headers ++ h ∷ [])

unfoldable pub is_valid_host_value : Bytes → Bool
is_valid_host_value host = not (is_empty host) && not (any (λ b. leb b b' ' || b == 0x7f) host)

-- `validate_host` on the Host fields.
abbrev pub validate_hosts : List Header → Version → Result (Unit {0})
validate_hosts [] http11 = err bad_host
validate_hosts [] http10 = ok tt
validate_hosts (h ∷ []) version = guard (is_valid_host_value h.value) bad_host
validate_hosts (_ ∷ _ ∷ _) version = err bad_host

unfoldable pub validate_host : List Header → Version → Result (Unit {0})
validate_host headers version = validate_hosts (filter (header_is (codes "host")) headers) version

pub data Framing : Type 0 where
  fixed : ℕ → Framing
  chunked : Framing

-- `body_framing` on the Transfer-Encoding fields and the Content-Length fields.
unfoldable pub framing_of : List Header → List Header → Result Framing
framing_of (_ ∷ _) (_ ∷ _) = err conflicting_framing
framing_of (te ∷ []) [] =
    if eq_ignore_ascii_case (trim te.value) (codes "chunked")
    then ok chunked
    else err unsupported_transfer_encoding
framing_of (_ ∷ _ ∷ _) [] = err unsupported_transfer_encoding
framing_of [] [] = ok (fixed 0)
framing_of [] (cl ∷ []) = do
  guard (not (is_empty (trim cl.value) || not (all is_ascii_digit (trim cl.value))))
      bad_content_length
  len ← ok_or (parse_uint u64_max (trim cl.value)) bad_content_length
  ok (fixed len)
framing_of [] (_ ∷ _ ∷ _) = err bad_content_length

unfoldable pub body_framing : List Header → Result Framing
body_framing headers =
    framing_of (filter (header_is (codes "transfer-encoding")) headers)
      (filter (header_is (codes "content-length")) headers)
