-- ===== src/StaticFiles.antt =====
-- crates/core/src/handler/static_files.rs: from a request path to a static response.
pub mod Safety
pub mod Serving
pub mod Escapes
use ferro_http.Base.{
  ℕ, zero, suc, ◌+◌, ◌-◌, ◌*◌, ◌/◌, ◌%◌, ◌^◌, ◌≤◌, ◌<◌, min, ◌≡◌, refl, sym, ap, ◌∙◌, ◌≢◌, ◌↔◌, ◌⊎◌,
  inl, inr, Bool, true, false, not, ◌&&◌, ◌||◌, Option, none, some, List, [], ◌∷◌, ◌++◌, map,
  append_assoc, append-nil, arith, ltb, leb, ◌==◌, if◌then◌else◌, ltb→lt, lt→ltb, leb→le, ==_iff,
  Bool-cases, Option-cases, length, get_elem?, get_or, replicate, take, drop, length-append,
  length-take, length-drop, take-append-drop, take-append, drop-append, Bytes, codes, within,
  bytes_eq, bytes_eq_iff, is_empty, all, any, filter, position, find, u64_max, u32_max,
  is_ascii_digit, is_ascii_alphabetic, is_ascii_alphanumeric, eq_ignore_ascii_case, starts_with,
  strip_prefix, split_once, split, utf8_valid, trim, parse_digits, parse_uint, dec_digits,
  print_dec, to_ascii_lowercase, wrapping_add, print_hex, cons_head, hex_digits,
}
use mathlib.Core.Option
use ferro_http.Http.Status.{status}
use ferro_http.Http.Date.{http_date}
use ferro_http.Http.Mime.{mime_for}
use ferro_http.Http.Response.{Response, new_response, with_header}
use ferro_http.Asset.{Asset, AssetSource}

unfoldable pub hex_value : ℕ → Option ℕ
hex_value b =
    if within b'0' b'9' b
    then some (b - b'0')
    else if within b'a' b'f' b
    then some (b - b'a' + 10)
    else if within b'A' b'F' b
    then some (b - b'A' + 10)
    else none

-- Where the loop of `percent_decode` stands: at a byte, or inside an escape.
pub data Escape : Type 0 where
  outside after_percent : Escape
  after_digit : ℕ → Escape

-- One byte of the input: where the loop stands after it, and the bytes that it yields.
unfoldable pub decode_byte : Escape → ℕ → Option (Escape × Bytes)
decode_byte outside c = if c == b'%' then some (after_percent, []) else some (outside, c ∷ [])
decode_byte after_percent c = elim (hex_value c) [
  | none ↦ none
  | some hi ↦ some (after_digit hi, [])
]
decode_byte (after_digit hi) c = elim (hex_value c) [
  | none ↦ none
  | some lo ↦ some (outside, (hi * 16 + lo) ∷ [])
]

-- The loop of `percent_decode`; an escape that the input ends in is malformed.
unfoldable pub decode_from : Escape → Bytes → Option Bytes
decode_from outside [] = some []
decode_from _ [] = none
decode_from at (c ∷ cs) = elim (decode_byte at c) [
  | none ↦ none
  | some (next, out) ↦ Option.map (λ rest. out ++ rest) (decode_from next cs)
]

-- `String::from_utf8(out).ok()`
abbrev pub as_utf8 : Option Bytes → Option Bytes
as_utf8 none = none
as_utf8 (some s) = if utf8_valid s then some s else none

unfoldable pub percent_decode : Bytes → Option Bytes
percent_decode input = as_utf8 (decode_from outside input)

abbrev pub is_unsafe_byte : ℕ → Bool
is_unsafe_byte b = ltb b 0x20 || b == 0x5c

abbrev pub is_skipped : Bytes → Bool
is_skipped s = is_empty s || bytes_eq s (codes ".")

abbrev pub is_refused : Bytes → Bool
is_refused s = bytes_eq s (codes "..") || any is_unsafe_byte s

-- The loop of `sanitize`.
unfoldable pub sanitize_in : List Bytes → Option (List Bytes)
sanitize_in [] = some []
sanitize_in (s ∷ segs) =
    let rest = sanitize_in segs in
    if is_skipped s then rest else if is_refused s then none else Option.map (λ r. s ∷ r) rest

unfoldable pub sanitize : Bytes → Option (List Bytes)
sanitize decoded = sanitize_in (split b'/' decoded)

-- `segments.join("/")`
unfoldable pub join : List Bytes → Bytes
join [] = []
join (s ∷ segs) = if is_empty segs then s else s ++ b'/' ∷ join segs

-- `decoded.ends_with('/')`
unfoldable pub ends_with_slash : Bytes → Bool
ends_with_slash [] = false
ends_with_slash (c ∷ cs) = if is_empty cs then c == b'/' else ends_with_slash cs

-- The closure over the index files.
abbrev pub index_path : Bytes → Bytes → Bytes
index_path base index = if is_empty base then index else base ++ b'/' ∷ index

abbrev pub candidates_of : Bytes → List Bytes → List Bytes → List Bytes
candidates_of decoded segments index_files =
    if is_empty segments || ends_with_slash decoded
    then map (index_path (join segments)) index_files
    else join segments ∷ []

unfoldable pub candidate_paths : Bytes → List Bytes → Option (List Bytes)
candidate_paths path index_files = elim (percent_decode path) [
  | none ↦ none
  | some decoded ↦
      Option.map (λ segments. candidates_of decoded segments index_files) (sanitize decoded)
]

abbrev pub etag : ℕ → ℕ → Bytes
etag len mtime = codes "\"" ++ (print_hex len ++ (codes "-" ++ (print_hex mtime ++ codes "\"")))

-- The validators, where the source knows the time.
abbrev pub with_validators : Response → ℕ → Option ℕ → Response
with_validators r len none = r
with_validators r len (some mtime) =
    with_header (with_header r (codes "Last-Modified") (http_date mtime)) (codes "ETag")
      (etag len mtime)

unfoldable pub file_response : Bytes → Asset → List (Bytes × Bytes) → Response
file_response name asset overrides =
    let typed =
      with_header (new_response (status 200)) (codes "Content-Type") (mime_for name overrides) in
    let ranged = with_header typed (codes "Accept-Ranges") (codes "bytes") in
    record (with_validators ranged (length asset.bytes) asset.mtime) { body = asset.bytes }

-- The loop of `serve_static`.
unfoldable pub serve_first : AssetSource → List (Bytes × Bytes) → List Bytes → Option Response
serve_first assets overrides [] = none
serve_first assets overrides (c ∷ cs) = elim (assets.load c) [
  | some asset ↦ some (file_response c asset overrides)
  | none ↦ serve_first assets overrides cs
]

unfoldable pub serve_static :
    Bytes → List Bytes → AssetSource → List (Bytes × Bytes) → Option Response
serve_static path index_files assets overrides = elim (candidate_paths path index_files) [
  | none ↦ none
  | some candidates ↦ serve_first assets overrides candidates
]

unfoldable pub static_exists : Bytes → List Bytes → AssetSource → Bool
static_exists path index_files assets = elim (candidate_paths path index_files) [
  | none ↦ false
  | some candidates ↦ any assets.exists candidates
]
