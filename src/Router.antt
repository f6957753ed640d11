-- ===== src/Router.antt =====
-- crates/core/src/router.rs: routes, their patterns and the dispatch of a request.
pub mod Matching
pub mod Dispatch
use ferro_http.Http.Request.{
  Version, http10, http11, Header, Request, Result, ok, err, panic, out_of_fuel, ◌>>=◌, ◌>>◌, guard,
  ok_or, header_is, ParseError, head_too_large, too_many_headers, malformed_request_line,
  unknown_method, target_too_long, unsupported_version, bare_cr, bad_host, malformed_header,
  bad_content_length, conflicting_framing, unsupported_transfer_encoding, malformed_chunk,
  body_too_large, find_header, header, path, keep_alive, absolute_form_path, split_scheme,
  >>=-eq-ok, guard-eq-ok, ok_or-eq-ok, ok-injective,
}
use ferro_http.Base.{
  ℕ, zero, suc, ◌+◌, ◌-◌, ◌*◌, ◌/◌, ◌%◌, ◌^◌, ◌≤◌, ◌<◌, min, ◌≡◌, refl, sym, ap, ◌∙◌, ◌≢◌, ◌↔◌, ◌⊎◌,
  inl, inr, Bool, true, false, not, ◌&&◌, ◌||◌, Option, none, some, List, [], ◌∷◌, ◌++◌, map,
  append_assoc, append-nil, arith, ltb, leb, ◌==◌, if◌then◌else◌, ltb→lt, lt→ltb, leb→le, ==_iff,
  Bool-cases, Option-cases, length, get_elem?, get_or, replicate, take, drop, length-append,
  length-take, length-drop, take-append-drop, take-append, drop-append, Bytes, codes, within,
  bytes_eq, bytes_eq_iff, is_empty, all, any, filter, position, find, u64_max, u32_max,
  is_ascii_digit, is_ascii_alphabetic, is_ascii_alphanumeric, eq_ignore_ascii_case, starts_with,
  strip_prefix, split_once, split, utf8_valid, trim, parse_digits, parse_uint, dec_digits,
  print_dec, to_ascii_lowercase, wrapping_add,
}
use ferro_http.Http.Method.{Method, get, head, method_eq}
use ferro_http.Http.Status.{status}
use ferro_http.Http.Response.{Response, text}
use ferro_http.Conn.{RequestContext, Service}

-- The pairs that `Params` holds, in the order of the path.
pub record Params : Type 0 where
  pub pairs : List (Bytes × Bytes)

unfoldable pub find_pair : Bytes → List (Bytes × Bytes) → Option Bytes
find_pair name [] = none
find_pair name ((key, value) ∷ ps) = if bytes_eq key name then some value else find_pair name ps

-- `Params::get`
unfoldable pub get_param : Params → Bytes → Option Bytes
get_param p name = find_pair name p.pairs

abbrev pub Handler : Type 0
Handler = Request → Params → Response

pub data Segment : Type 0 where
  static param : Bytes → Segment

pub record Route : Type 0 where
  pub method : Method
  pub segments : List Segment
  pub handler : Handler

pub record Router : Type 0 where
  pub routes : List Route

-- `Router::new`
abbrev pub new_router : Router
new_router = record { routes = [] }

unfoldable pub split_path : Bytes → List Bytes
split_path p = filter (λ s. not (is_empty s)) (split b'/' p)

-- The closure of `parse_pattern`.
unfoldable pub parse_segment : Bytes → Segment
parse_segment [] = static []
parse_segment (c ∷ name) = if c == b':' then param name else static (c ∷ name)

unfoldable pub parse_pattern : Bytes → List Segment
parse_pattern pattern = map parse_segment (split_path pattern)

-- The loop of `match_segments`, on the pairs of `zip`, with the parameters so far.
unfoldable pub zip_segments : List Segment → List Bytes → List (Bytes × Bytes) → Option Params
zip_segments (static s ∷ segs) (value ∷ values) pairs =
    if not (bytes_eq s value) then none else zip_segments segs values pairs
zip_segments (param name ∷ segs) (value ∷ values) pairs =
    zip_segments segs values (pairs ++ (name, value) ∷ [])
zip_segments _ _ pairs = some (record { pairs = pairs })

unfoldable pub match_segments : List Segment → Bytes → Option Params
match_segments pattern p =
    if not (length (split_path p) == length pattern)
    then none
    else zip_segments pattern (split_path p) []

-- `Router::route`
unfoldable pub route : Router → Method → Bytes → Handler → Router
route r m pattern handler = record {
  routes =
      r.routes ++ record { method = m; segments = parse_pattern pattern; handler = handler } ∷ [];
}

unfoldable pub method_matches : Method → Method → Bool
method_matches route_method request_method =
    method_eq route_method request_method
    || (method_eq request_method head && method_eq route_method get)

-- The loop of `dispatch`.
unfoldable pub dispatch_in : List Route → Request → Option Response
dispatch_in [] request = none
dispatch_in (r ∷ rs) request =
    if not (method_matches r.method request.method)
    then dispatch_in rs request
    else elim (match_segments r.segments (path request)) [
      | some params ↦ some (r.handler request params)
      | none ↦ dispatch_in rs request
    ]

unfoldable pub dispatch : Router → Request → Option Response
dispatch r request = dispatch_in r.routes request

-- `contains` on methods.
unfoldable pub contains_method : Method → List Method → Bool
contains_method m ms = any (λ x. method_eq x m) ms

abbrev pub is_match : Option Params → Bool
is_match none = false
is_match (some p) = true

-- The loop of `allowed_methods`, with the methods so far.
unfoldable pub allowed_in : List Route → Bytes → List Method → List Method
allowed_in [] p methods = methods
allowed_in (r ∷ rs) p methods =
    if is_match (match_segments r.segments p) && not (contains_method r.method methods)
    then allowed_in rs p (methods ++ r.method ∷ [])
    else allowed_in rs p methods

unfoldable pub allowed_methods : Router → Bytes → List Method
allowed_methods r p = allowed_in r.routes p []

-- The loop of `registered_methods`, with the methods so far.
unfoldable pub registered_in : List Route → List Method → List Method
registered_in [] methods = methods
registered_in (r ∷ rs) methods =
    if not (contains_method r.method methods)
    then registered_in rs (methods ++ r.method ∷ [])
    else registered_in rs methods

unfoldable pub registered_methods : Router → List Method
registered_methods r = registered_in r.routes []

abbrev pub response_or : Option Response → Response → Response
response_or none other = other
response_or (some r) other = r

-- `Service for Router`
unfoldable pub handle : Router → Service
handle r request ctx = response_or (dispatch r request) (text (status 404) (codes "404 Not Found"))
