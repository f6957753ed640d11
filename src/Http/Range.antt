-- ===== src/Http/Range.antt =====
-- crates/core/src/http/conditional.rs: byte ranges. The preconditions of the same file, which
-- compare dates, are not here.
pub mod Bounds
use ferro_http.Http.Request.{
  Version, http10, http11, Header, Request, Result, ok, err, panic, out_of_fuel, ◌>>=◌, ◌>>◌, guard,
  ok_or, header_is, ParseError, head_too_large, too_many_headers, malformed_request_line,
  unknown_method, target_too_long, unsupported_version, bare_cr, bad_host, malformed_header,
  bad_content_length, conflicting_framing, unsupported_transfer_encoding, malformed_chunk,
  body_too_large, find_header, header, path, keep_alive, absolute_form_path, split_scheme,
  >>=-eq-ok, guard-eq-ok, ok_or-eq-ok, ok-injective,
}
use ferro_http.Base.{
  ℕ, zero, suc, ◌+◌, ◌-◌, ◌*◌, ◌/◌, ◌%◌, ◌^◌, ◌≤◌, ◌<◌, min, ◌≡◌, refl, sym, ap, ◌∙◌, ◌≢◌, ◌↔◌, ◌⊎◌,
  inl, inr, Bool, true, false, not, ◌&&◌, ◌||◌, Option, none, some, List, [], ◌∷◌, ◌++◌, map,
  append_assoc, append-nil, arith, ltb, leb, ◌==◌, if◌then◌else◌, ltb→lt, lt→ltb, leb→le, ==_iff,
  Bool-cases, Option-cases, length, get_elem?, get_or, replicate, take, drop, length-append,
  length-take, length-drop, take-append-drop, take-append, drop-append, Bytes, codes, within,
  bytes_eq, bytes_eq_iff, is_empty, all, any, filter, position, find, u64_max, u32_max,
  is_ascii_digit, is_ascii_alphabetic, is_ascii_alphanumeric, eq_ignore_ascii_case, starts_with,
  strip_prefix, split_once, split, utf8_valid, trim, parse_digits, parse_uint, dec_digits,
  print_dec, to_ascii_lowercase, wrapping_add, print_hex, cons_head, hex_digits,
}
use ferro_http.Http.Status.{status}
use ferro_http.Http.Response.{Response, new_response, with_header}

pub data RangeOutcome : Type 0 where
  satisfiable : ℕ → ℕ → RangeOutcome
  unsatisfiable : RangeOutcome

-- "-N": the last N bytes.
unfoldable pub suffix_range : Bytes → ℕ → Option RangeOutcome
suffix_range last len = elim (parse_uint u64_max last) [
  | none ↦ none
  | some n ↦
      if n == 0 || len == 0
      then some unsatisfiable
      else some (satisfiable (len - min n len) (len - 1))
]

-- The end of a range that begins at `start`.
unfoldable pub range_from : ℕ → Bytes → ℕ → Option RangeOutcome
range_from start last len =
    if is_empty last then some (satisfiable start (len - 1)) else elim (parse_uint u64_max last) [
      | none ↦ none
      | some requested ↦
          if ltb requested start
          then some unsatisfiable
          else some (satisfiable start (min requested (len - 1)))
    ]

unfoldable pub range_of : Bytes → Bytes → ℕ → Option RangeOutcome
range_of first last len =
    if is_empty first then suffix_range last len else elim (parse_uint u64_max first) [
      | none ↦ none
      | some start ↦ if leb len start then some unsatisfiable else range_from start last len
    ]

unfoldable pub parse_spec : Bytes → ℕ → Option RangeOutcome
parse_spec spec len = if any (λ b. b == b',') spec then none else elim (split_once b'-' spec) [
  | none ↦ none
  | some (first, last) ↦ range_of (trim first) (trim last) len
]

unfoldable pub parse_single_range : Bytes → ℕ → Option RangeOutcome
parse_single_range value len = elim (strip_prefix value (codes "bytes=")) [
  | none ↦ none
  | some spec ↦ parse_spec (trim spec) len
]

-- `header` of this file, on the headers of a response.
unfoldable pub find_field : Bytes → List (Bytes × Bytes) → Option Bytes
find_field name [] = none
find_field name ((n, v) ∷ hs) = if eq_ignore_ascii_case n name then some v else find_field name hs

unfoldable pub response_header : Response → Bytes → Option Bytes
response_header r name = find_field name r.headers

-- The loops that keep some headers of a response.
unfoldable pub copy_headers : Response → List Bytes → Response → Response
copy_headers from [] to = to
copy_headers from (name ∷ names) to = elim (response_header from name) [
  | some value ↦ copy_headers from names (with_header to name value)
  | none ↦ copy_headers from names to
]

abbrev kept_by_304 : List Bytes
kept_by_304 = codes "ETag" ∷ codes "Last-Modified" ∷ codes "Cache-Control" ∷ codes "Vary" ∷ []

unfoldable pub to_not_modified : Response → Response
to_not_modified r = copy_headers r kept_by_304 (new_response (status 304))

abbrev pub without_prefix : Bytes → Bytes → Bytes
without_prefix p s = elim (strip_prefix s p) [ none ↦ s | some rest ↦ rest ]

unfoldable pub weak_eq : Bytes → Bytes → Bool
weak_eq a b = bytes_eq (without_prefix (codes "W/") a) (without_prefix (codes "W/") b)

abbrev pub kept_by_206 : List Bytes
kept_by_206 = codes "Content-Type" ∷ codes "ETag" ∷ codes "Last-Modified" ∷ []

abbrev pub content_range : ℕ → ℕ → ℕ → Bytes
content_range start end len =
    codes "bytes "
    ++ (print_dec start ++ (codes "-" ++ (print_dec end ++ (codes "/" ++ print_dec len))))

-- The response 206; the slice of the body is in range by the bounds of the outcome.
unfoldable pub partial_content : Response → ℕ → ℕ → Response
partial_content r start end =
    let ranged = with_header (new_response (status 206)) (codes "Accept-Ranges") (codes "bytes") in
    let located =
      with_header ranged (codes "Content-Range") (content_range start end (length r.body)) in
    record (copy_headers r kept_by_206 located) {
      body = take (end + 1 - start) (drop start r.body);
    }

unfoldable pub range_response : Response → Option RangeOutcome → Response
range_response r (some (satisfiable start end)) = partial_content r start end
range_response r (some unsatisfiable) =
    with_header (new_response (status 416)) (codes "Content-Range")
      (codes "bytes */" ++ print_dec (length r.body))
range_response r none = r

unfoldable pub apply_range : Request → Response → Response
apply_range request r = elim (header request (codes "range")) [
  | none ↦ r
  | some range ↦ range_response r (parse_single_range range (length r.body))
]
