-- ===== src/Http/Request/Scan.antt =====
-- crates/core/src/http/request.rs: searching and cutting the bytes of a request head.
pub mod Search
pub mod Lines
pub mod Found
pub mod BareCr
use ferro_http.Http.Request.{
  Version, http10, http11, Header, Request, Result, ok, err, panic, out_of_fuel, ◌>>=◌, ◌>>◌, guard,
  ok_or, header_is, ParseError, head_too_large, too_many_headers, malformed_request_line,
  unknown_method, target_too_long, unsupported_version, bare_cr, bad_host, malformed_header,
  bad_content_length, conflicting_framing, unsupported_transfer_encoding, malformed_chunk,
  body_too_large, find_header, header, path, keep_alive, absolute_form_path, split_scheme,
  >>=-eq-ok, guard-eq-ok, ok_or-eq-ok, ok-injective,
}
use ferro_http.Base.{
  ℕ, zero, suc, ◌+◌, ◌-◌, ◌*◌, ◌/◌, ◌%◌, ◌^◌, ◌≤◌, ◌<◌, min, ◌≡◌, refl, sym, ap, ◌∙◌, ◌≢◌, ◌↔◌, ◌⊎◌,
  inl, inr, Bool, true, false, not, ◌&&◌, ◌||◌, Option, none, some, List, [], ◌∷◌, ◌++◌, map,
  append_assoc, append-nil, arith, ltb, leb, ◌==◌, if◌then◌else◌, ltb→lt, lt→ltb, leb→le, ==_iff,
  Bool-cases, Option-cases, length, get_elem?, get_or, replicate, take, drop, length-append,
  length-take, length-drop, take-append-drop, take-append, drop-append, Bytes, codes, within,
  bytes_eq, bytes_eq_iff, is_empty, all, any, filter, position, find, u64_max, u32_max,
  is_ascii_digit, is_ascii_alphabetic, is_ascii_alphanumeric, eq_ignore_ascii_case, starts_with,
  strip_prefix, split_once, split, utf8_valid, trim, parse_digits, parse_uint, dec_digits,
  print_dec, to_ascii_lowercase, wrapping_add, print_hex, cons_head, hex_digits,
}
use mathlib.Core.Option

-- `trim_ows`, which the header parser repeats in place: SP and HTAB at both ends.
abbrev is_ows : ℕ → Bool
is_ows c = c == b' ' || c == b'\t'

pub trim_ows_start : Bytes → Bytes
trim_ows_start [] = []
trim_ows_start (c ∷ cs) = if is_ows c then trim_ows_start cs else c ∷ cs

pub trim_ows_end : Bytes → Bytes
trim_ows_end [] = []
trim_ows_end (c ∷ cs) =
    let rest = trim_ows_end cs in if is_ows c && is_empty rest then [] else c ∷ rest

unfoldable pub trim_ows : Bytes → Bytes
unfolding trim_ows_start trim_ows_end
trim_ows bytes = trim_ows_end (trim_ows_start bytes)

-- `windows(needle.len()).position(|window| window == needle)`
unfoldable pub window_position : Bytes → Bytes → Option ℕ
window_position [] needle = none
window_position (c ∷ cs) needle =
    if starts_with (c ∷ cs) needle then some 0 else Option.map suc (window_position cs needle)

unfoldable pub find_subslice : Bytes → Bytes → Option ℕ
find_subslice haystack needle =
    if is_empty needle || ltb (length haystack) (length needle)
    then none
    else window_position haystack needle

abbrev pub crlf : Bytes
crlf = b'\r' ∷ b'\n' ∷ []

abbrev pub crlf_crlf : Bytes
crlf_crlf = b'\r' ∷ b'\n' ∷ b'\r' ∷ b'\n' ∷ []

-- The iterator of `split_crlf`, run to its end; `none` where the fuel is used up first. Each line but
-- the last takes two bytes at least, so fuel above the length of the block is enough.
unfoldable pub split_crlf_from : ℕ → Bytes → Option (List Bytes)
split_crlf_from zero rest = none
split_crlf_from (suc f) rest = elim (find_subslice rest crlf) [
  | none ↦ some (rest ∷ [])
  | some i ↦ Option.map (◌∷◌ (take i rest)) (split_crlf_from f (drop (i + 2) rest))
]

unfoldable pub split_crlf : Bytes → Option (List Bytes)
split_crlf block = split_crlf_from (suc (length block)) block

abbrev starts_with_lf : Bytes → Bool
starts_with_lf [] = false
starts_with_lf (c ∷ _) = c == b'\n'

unfoldable pub has_bare_cr : Bytes → Bool
has_bare_cr [] = false
has_bare_cr (c ∷ cs) = c == b'\r' && not (starts_with_lf cs) || has_bare_cr cs

-- `&buf[from..to]`, which panics out of range.
abbrev pub slice : Bytes → ℕ → ℕ → Result Bytes
slice buf from to =
    if leb from to && leb to (length buf) then ok (take (to - from) (drop from buf)) else panic

unfoldable pub is_token_byte : ℕ → Bool
is_token_byte b = is_ascii_alphanumeric b || any (λ t. t == b) (codes "!#$%&'*+-.^_`|~")
