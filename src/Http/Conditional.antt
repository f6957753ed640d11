-- ===== src/Http/Conditional.antt =====
-- crates/core/src/http/conditional.rs: the preconditions of a request, and `evaluate`.
pub mod Precedence
use ferro_http.Http.Request.{
  Version, http10, http11, Header, Request, Result, ok, err, panic, out_of_fuel, ◌>>=◌, ◌>>◌, guard,
  ok_or, header_is, ParseError, head_too_large, too_many_headers, malformed_request_line,
  unknown_method, target_too_long, unsupported_version, bare_cr, bad_host, malformed_header,
  bad_content_length, conflicting_framing, unsupported_transfer_encoding, malformed_chunk,
  body_too_large, find_header, header, path, keep_alive, absolute_form_path, split_scheme,
  >>=-eq-ok, guard-eq-ok, ok_or-eq-ok, ok-injective,
}
use ferro_http.Base.{
  ℕ, zero, suc, ◌+◌, ◌-◌, ◌*◌, ◌/◌, ◌%◌, ◌^◌, ◌≤◌, ◌<◌, min, ◌≡◌, refl, sym, ap, ◌∙◌, ◌≢◌, ◌↔◌, ◌⊎◌,
  inl, inr, Bool, true, false, not, ◌&&◌, ◌||◌, Option, none, some, List, [], ◌∷◌, ◌++◌, map,
  append_assoc, append-nil, arith, ltb, leb, ◌==◌, if◌then◌else◌, ltb→lt, lt→ltb, leb→le, ==_iff,
  Bool-cases, Option-cases, length, get_elem?, get_or, replicate, take, drop, length-append,
  length-take, length-drop, take-append-drop, take-append, drop-append, Bytes, codes, within,
  bytes_eq, bytes_eq_iff, is_empty, all, any, filter, position, find, u64_max, u32_max,
  is_ascii_digit, is_ascii_alphabetic, is_ascii_alphanumeric, eq_ignore_ascii_case, starts_with,
  strip_prefix, split_once, split, utf8_valid, trim, parse_digits, parse_uint, dec_digits,
  print_dec, to_ascii_lowercase, wrapping_add, print_hex, cons_head, hex_digits,
}
use ferro_http.Http.Date.Parse.{parse_http_date}
use ferro_http.Http.Response.{Response}
use ferro_http.Http.Range.{response_header, to_not_modified, weak_eq, apply_range}

-- `If-None-Match` against the entity tag.
unfoldable pub matches_tag : Bytes → Option Bytes → Bool
matches_tag inm none = bytes_eq (trim inm) (codes "*")
matches_tag inm (some tag) =
    bytes_eq (trim inm) (codes "*") || any (λ c. weak_eq (trim c) tag) (split b',' inm)

-- Whether the second date is not after the first, where both are dates.
unfoldable pub not_after : Option ℕ → Option ℕ → Bool
not_after (some ims) (some lm) = leb lm ims
not_after _ _ = false

-- `If-Modified-Since` against the time of the last change.
unfoldable pub unchanged_since : Option Bytes → Option Bytes → Bool
unchanged_since (some ims) (some lm) = not_after (parse_http_date ims) (parse_http_date lm)
unchanged_since _ _ = false

unfoldable pub not_modified : Request → Response → Bool
not_modified request r = elim (header request (codes "if-none-match")) [
  | some inm ↦ matches_tag inm (response_header r (codes "etag"))
  | none ↦
      unchanged_since (header request (codes "if-modified-since"))
        (response_header r (codes "last-modified"))
]

unfoldable pub evaluate : Request → Response → Response
evaluate request r =
    if not (r.status.code == 200)
    then r
    else if not_modified request r
    then to_not_modified r
    else apply_range request r
