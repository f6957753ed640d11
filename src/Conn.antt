-- ===== src/Conn.antt =====
-- crates/core/src/conn.rs and crates/core/src/service.rs: the state machine of one connection.
pub mod Pipeline
pub mod Interim
use ferro_http.Http.Request.{
  Version, http10, http11, Header, Request, Result, ok, err, panic, ◌>>=◌, ◌>>◌, guard, ok_or,
  header_is, ParseError, head_too_large, too_many_headers, malformed_request_line, unknown_method,
  target_too_long, unsupported_version, bare_cr, bad_host, malformed_header, bad_content_length,
  conflicting_framing, unsupported_transfer_encoding, malformed_chunk, body_too_large, find_header,
  header, path, keep_alive, absolute_form_path, split_scheme, >>=-eq-ok, guard-eq-ok, ok_or-eq-ok,
  ok-injective,
}
use ferro_http.Base.{
  ℕ, zero, suc, ◌+◌, ◌-◌, ◌*◌, ◌/◌, ◌%◌, ◌^◌, ◌≤◌, ◌<◌, min, ◌≡◌, refl, sym, ap, ◌∙◌, ◌≢◌, ◌↔◌, ◌⊎◌,
  inl, inr, Bool, true, false, not, ◌&&◌, ◌||◌, Option, none, some, List, [], ◌∷◌, ◌++◌, map,
  append_assoc, append-nil, arith, ltb, leb, ◌==◌, if◌then◌else◌, ltb→lt, lt→ltb, leb→le, ==_iff,
  Bool-cases, Option-cases, length, get_elem?, get_or, replicate, take, drop, length-append,
  length-take, length-drop, take-append-drop, take-append, drop-append, Bytes, codes, within,
  bytes_eq, bytes_eq_iff, is_empty, all, any, filter, position, find, u64_max, u32_max,
  is_ascii_digit, is_ascii_alphabetic, is_ascii_alphanumeric, eq_ignore_ascii_case, starts_with,
  strip_prefix, split_once, split, utf8_valid, trim, parse_digits, parse_uint, dec_digits,
  print_dec, to_ascii_lowercase, wrapping_add, print_hex, cons_head, hex_digits,
}
use ferro_http.Http.Method.{is_head}
use ferro_http.Http.Status.{StatusCode, status, reason}
use ferro_http.Http.Date.{http_date}
use ferro_http.Http.Response.{Response, new_response, with_header, text, serialize}
use ferro_http.Http.Request.Parse.{
  parse_with, Parsed, done, max_body_bytes, expect_action, ExpectAction, nothing, proceed,
  unsupported,
}

pub record RequestContext : Type 0 where
  pub peer : Bytes
  pub now_unix_secs : ℕ

-- The trait `Service`: the handler of a profile, which the connection only calls.
abbrev pub Service : Type 0
Service = Request → RequestContext → Response

-- `Step`, and the panic of the source's slices, after which there is no result.
pub data Step : Type 0 where
  need_more : Step
  write : Bytes → Bool → Step
  panicked : Step
  out_of_fuel : Step

pub record ResponsePolicy : Type 0 where
  pub security_headers : Bool
  pub has_clock : Bool

pub record Connection : Type 0 where
  pub buf : Bytes
  pub policy : ResponsePolicy
  pub max_body : ℕ
  pub peer : Bytes
  pub continue_sent : Bool

abbrev pub default_policy : ResponsePolicy
default_policy = record { security_headers = false; has_clock = true }

-- `Connection::with_policy`
unfoldable pub with_policy : ResponsePolicy → Connection
with_policy p = record {
  buf = [];
  policy = p;
  max_body = max_body_bytes;
  peer = 0 ∷ 0 ∷ 0 ∷ 0 ∷ 0 ∷ 0 ∷ 0 ∷ 0 ∷ 0 ∷ 0 ∷ 0 ∷ 0 ∷ 0 ∷ 0 ∷ 0 ∷ 0 ∷ [];
  continue_sent = false;
}

-- `Connection::new`
unfoldable pub new_connection : Connection
new_connection = with_policy default_policy

pub set_max_body : ℕ → Connection → Connection
set_max_body n c = record c { max_body = n }

pub set_peer : Bytes → Connection → Connection
set_peer p c = record c { peer = p }

pub set_clock : Bool → Connection → Connection
set_clock has_clock c = record c { policy = record (c.policy) { has_clock = has_clock } }

abbrev pub feed : Bytes → Connection → Connection
feed bytes c = record c { buf = c.buf ++ bytes }

unfoldable pub apply_security_headers : Response → Response
apply_security_headers r =
    with_header
      (with_header (with_header r (codes "X-Content-Type-Options") (codes "nosniff"))
        (codes "X-Frame-Options") (codes "SAMEORIGIN"))
      (codes "Referrer-Policy") (codes "strict-origin-when-cross-origin")

unfoldable pub finalize : Response → ℕ → Bool → ResponsePolicy → Response
finalize response now keep policy =
    let connection = if keep then codes "keep-alive" else codes "close" in
    let connected = with_header response (codes "Connection") connection in
    let dated =
      if policy.has_clock
      then with_header connected (codes "Date") (http_date now)
      else connected in
    if policy.security_headers then apply_security_headers dated else dated

unfoldable pub error_status : ParseError → StatusCode
error_status unsupported_version = status 505
error_status unknown_method = status 501
error_status unsupported_transfer_encoding = status 501
error_status body_too_large = status 413
error_status target_too_long = status 414
error_status head_too_large = status 431
error_status too_many_headers = status 431
error_status _ = status 400

-- The response to a parse error, and to an expectation that is not supported.
unfoldable pub error_response : ParseError → ℕ → ResponsePolicy → Response
error_response e now policy =
    finalize (text (error_status e) (reason (error_status e))) now false policy

unfoldable pub expectation_failed : ℕ → ResponsePolicy → Response
expectation_failed now policy =
    finalize (text (status 417) (codes "417 Expectation Failed")) now false policy

-- The interim response.
unfoldable pub interim : Bytes
interim = serialize (new_response (status 100)) false

-- The arm `Ok(Parsed::Partial)`, on what the head expects and whether the interim was sent.
unfoldable pub step_partial : Connection → ℕ → Option ExpectAction → Bool → Connection × Step
step_partial c now none sent = (c, out_of_fuel)
step_partial c now (some proceed) false = (record c { continue_sent = true }, write interim false)
step_partial c now (some proceed) true = (c, need_more)
step_partial c now (some unsupported) sent =
    (c, write (serialize (expectation_failed now c.policy) false) true)
step_partial c now (some nothing) sent = (c, need_more)

-- The arm `Ok(Parsed::Complete)`.
unfoldable pub step_complete : Service → Connection → ℕ → Request → ℕ → Connection × Step
step_complete service c now request consumed =
    let ctx : RequestContext = record { peer = c.peer; now_unix_secs = now } in
    let keep = keep_alive request in
    let response = finalize (service request ctx) now keep c.policy in
    (
      record c { buf = drop consumed c.buf; continue_sent = false },
      write (serialize response (is_head request.method)) (not keep),
    )

unfoldable pub step_on : Service → Connection → ℕ → Result Parsed → Connection × Step
step_on service c now (ok Parsed.need_more) =
    step_partial c now (expect_action c.buf) c.continue_sent
step_on service c now (ok (done request consumed)) = step_complete service c now request consumed
step_on service c now (err e) = (c, write (serialize (error_response e now c.policy) false) true)
step_on service c now panic = (c, panicked)
step_on service c now Result.out_of_fuel = (c, out_of_fuel)

-- `Connection::step`
unfoldable pub step : Service → Connection → ℕ → Connection × Step
step service c now = step_on service c now (parse_with c.buf c.max_body)
