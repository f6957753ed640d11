-- ===== src/Http/Request/Line.antt =====
-- crates/core/src/http/request.rs: the request line and its version token.
pub mod Laws
use ferro_http.Base.{
  ℕ, ◌+◌, ◌-◌, ◌*◌, min, not, ◌&&◌, ◌||◌, none, some, [], ◌∷◌, leb, ◌==◌, if◌then◌else◌, length,
  Bytes, codes, is_empty, all, any, u32_max, is_ascii_digit, strip_prefix, split_once, utf8_valid,
}
use ferro_http.Http.Request.{
  Version, http10, http11, Result, ok, err, ◌>>=◌, ◌>>◌, guard, ok_or, malformed_request_line,
  unknown_method, target_too_long, unsupported_version,
}
use ferro_http.Http.Method.{Method, from_bytes}
use ferro_http.Http.Request.Scan.{is_token_byte}

abbrev pub max_target_bytes : ℕ
max_target_bytes = 8 * 1024

ascii_to_u32_from : ℕ → Bytes → ℕ
ascii_to_u32_from value [] = value
ascii_to_u32_from value (b ∷ bytes) =
    ascii_to_u32_from (min (min (value * 10) u32_max + (b - b'0')) u32_max) bytes

unfoldable pub ascii_to_u32_saturating : Bytes → ℕ
unfolding ascii_to_u32_from
ascii_to_u32_saturating = ascii_to_u32_from 0

unfoldable pub parse_version : Bytes → Result Version
parse_version tok = do
  rest ← ok_or (strip_prefix tok (codes "HTTP/")) malformed_request_line
  (major, minor) ← ok_or (split_once b'.' rest) malformed_request_line
  guard
      (not (
        is_empty major
        || is_empty minor
        || not (all is_ascii_digit major)
        || not (all is_ascii_digit minor)))
      malformed_request_line
  guard (ascii_to_u32_saturating major == 1) unsupported_version
  ok (if ascii_to_u32_saturating minor == 0 then http10 else http11)

-- The method token: a token that names no method is told apart from one with other bytes.
unfoldable pub parse_method : Bytes → Result Method
parse_method tok = elim (from_bytes tok) [
  | some m ↦ ok m
  | none ↦
      if not (is_empty tok) && all is_token_byte tok
      then err unknown_method
      else err malformed_request_line
]

-- `splitn(3, ' ')` is two splits at the first space.
unfoldable pub parse_request_line : Bytes → Result (Method × Bytes × Version)
parse_request_line line = do
  (method_tok, rest) ← ok_or (split_once b' ' line) malformed_request_line
  (target_tok, version_tok) ← ok_or (split_once b' ' rest) malformed_request_line
  guard (not (any (λ b. b == b' ') version_tok)) malformed_request_line
  method ← parse_method method_tok
  guard (leb (length target_tok) max_target_bytes) target_too_long
  guard (utf8_valid target_tok) malformed_request_line
  guard (not (is_empty target_tok)) malformed_request_line
  version ← parse_version version_tok
  ok (method, target_tok, version)
