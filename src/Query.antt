-- ===== src/Query.antt =====
-- crates/core/src/handler/query.rs: the content type of a QUERY request.
pub mod Parameters
use ferro_http.Http.Request.{
  Version, http10, http11, Header, Request, Result, ok, err, panic, out_of_fuel, ◌>>=◌, ◌>>◌, guard,
  ok_or, header_is, ParseError, head_too_large, too_many_headers, malformed_request_line,
  unknown_method, target_too_long, unsupported_version, bare_cr, bad_host, malformed_header,
  bad_content_length, conflicting_framing, unsupported_transfer_encoding, malformed_chunk,
  body_too_large, find_header, header, path, keep_alive, absolute_form_path, split_scheme,
  >>=-eq-ok, guard-eq-ok, ok_or-eq-ok, ok-injective,
}
use ferro_http.Base.{
  ℕ, zero, suc, ◌+◌, ◌-◌, ◌*◌, ◌/◌, ◌%◌, ◌^◌, ◌≤◌, ◌<◌, min, ◌≡◌, refl, sym, ap, ◌∙◌, ◌≢◌, ◌↔◌, ◌⊎◌,
  inl, inr, Bool, true, false, not, ◌&&◌, ◌||◌, Option, none, some, List, [], ◌∷◌, ◌++◌, map,
  append_assoc, append-nil, arith, ltb, leb, ◌==◌, if◌then◌else◌, ltb→lt, lt→ltb, leb→le, ==_iff,
  Bool-cases, Option-cases, length, get_elem?, get_or, replicate, take, drop, length-append,
  length-take, length-drop, take-append-drop, take-append, drop-append, Bytes, codes, within,
  bytes_eq, bytes_eq_iff, is_empty, all, any, filter, position, find, u64_max, u32_max,
  is_ascii_digit, is_ascii_alphabetic, is_ascii_alphanumeric, eq_ignore_ascii_case, starts_with,
  strip_prefix, split_once, split, utf8_valid, trim, parse_digits, parse_uint, dec_digits,
  print_dec, to_ascii_lowercase, wrapping_add, print_hex, cons_head, hex_digits,
}
use ferro_http.Http.Status.{status}
use ferro_http.Http.Response.{Response, text, with_header}

-- `Result<(), Response>`
pub data TypeCheck : Type 0 where
  accept : TypeCheck
  reject : Response → TypeCheck

-- The loop of `join_media_types`, after the first one.
unfoldable pub join_rest : List Bytes → Bytes
join_rest [] = []
join_rest (t ∷ ts) = codes ", " ++ (t ++ join_rest ts)

unfoldable pub join_media_types : List Bytes → Bytes
join_media_types [] = []
join_media_types (t ∷ ts) = t ++ join_rest ts

abbrev pub first_or_empty : List Bytes → Bytes
first_or_empty [] = []
first_or_empty (p ∷ ps) = p

-- The bare media type of a Content-Type.
unfoldable pub media_type : Bytes → Bytes
media_type content_type = trim (first_or_empty (split b';' content_type))

unfoldable pub check_content_type : Option Bytes → List Bytes → TypeCheck
check_content_type none accepted =
    reject (text (status 400) (codes "QUERY requests must carry a Content-Type"))
check_content_type (some content_type) accepted =
    if any (λ a. eq_ignore_ascii_case a (media_type content_type)) accepted
    then accept
    else reject (
        with_header (text (status 415) (codes "Unsupported query media type"))
          (codes "Accept-Query") (join_media_types accepted))

unfoldable pub query_content_type_check : Request → List Bytes → TypeCheck
query_content_type_check request accepted =
    check_content_type (header request (codes "content-type")) accepted
