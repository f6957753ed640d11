-- ===== src/Http/Response.antt =====
-- crates/core/src/http/response.rs: building a response and writing it to the wire.
pub mod Wire
use ferro_http.Base.{
  ℕ, zero, suc, ◌+◌, ◌-◌, ◌*◌, ◌/◌, ◌%◌, ◌^◌, ◌≤◌, ◌<◌, min, ◌≡◌, refl, sym, ap, ◌∙◌, ◌≢◌, ◌↔◌, ◌⊎◌,
  inl, inr, Bool, true, false, not, ◌&&◌, ◌||◌, Option, none, some, List, [], ◌∷◌, ◌++◌, map,
  append_assoc, append-nil, arith, ltb, leb, ◌==◌, if◌then◌else◌, ltb→lt, lt→ltb, leb→le, ==_iff,
  Bool-cases, Option-cases, length, get_elem?, get_or, replicate, take, drop, length-append,
  length-take, length-drop, take-append-drop, take-append, drop-append, Bytes, codes, within,
  bytes_eq, bytes_eq_iff, is_empty, all, any, filter, position, find, u64_max, u32_max,
  is_ascii_digit, is_ascii_alphabetic, is_ascii_alphanumeric, eq_ignore_ascii_case, starts_with,
  strip_prefix, split_once, split, utf8_valid, trim, parse_digits, parse_uint, dec_digits,
  print_dec, to_ascii_lowercase,
}
use ferro_http.Http.Status.{StatusCode, reason, is_empty_body}

pub record Response : Type 0 where
  pub status : StatusCode
  pub headers : List (Bytes × Bytes)
  pub body : Bytes

-- `Response::new`
abbrev pub new_response : StatusCode → Response
new_response s = record { status = s; headers = []; body = [] }

abbrev pub with_header : Response → Bytes → Bytes → Response
with_header r name value = record r { headers = r.headers ++ (name, value) ∷ [] }

unfoldable pub text : StatusCode → Bytes → Response
text s body = record {
  status = s;
  headers = (codes "Content-Type", codes "text/plain; charset=utf-8") ∷ [];
  body = body;
}

unfoldable pub json : StatusCode → Bytes → Response
json s body = record {
  status = s;
  headers = (codes "Content-Type", codes "application/json") ∷ [];
  body = body;
}

unfoldable pub has_forbidden_byte : Bytes → Bool
has_forbidden_byte = any (λ b. b == b'\r' || b == b'\n' || b == 0)

-- Whether the loop over the headers writes this one.
unfoldable pub is_written : Bytes × Bytes → Bool
is_written (name, value) =
    if eq_ignore_ascii_case name (codes "content-length")
    then false
    else not (has_forbidden_byte name || has_forbidden_byte value)

abbrev pub header_line : Bytes × Bytes → Bytes
header_line (name, value) = name ++ (codes ": " ++ (value ++ codes "\r\n"))

-- The loop over the headers, with the head so far.
unfoldable pub push_headers : Bytes → List (Bytes × Bytes) → Bytes
push_headers head [] = head
push_headers head (h ∷ hs) = push_headers (if is_written h then head ++ header_line h else head) hs

abbrev pub status_line : StatusCode → Bytes
status_line s = codes "HTTP/1.1 " ++ (print_dec s.code ++ (codes " " ++ (reason s ++ codes "\r\n")))

abbrev pub length_line : ℕ → Bytes
length_line n = codes "Content-Length: " ++ (print_dec n ++ codes "\r\n")

-- The head, up to and with the blank line.
unfoldable pub serialize_head : Response → Bytes
serialize_head r =
    let head = push_headers (status_line r.status) r.headers in
    (if not (is_empty_body r.status) then head ++ length_line (length r.body) else head)
    ++ codes "\r\n"

unfoldable pub serialize : Response → Bool → Bytes
serialize r head_only =
    if not head_only && not (is_empty_body r.status)
    then serialize_head r ++ r.body
    else serialize_head r
