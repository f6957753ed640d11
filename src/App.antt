-- ===== src/App.antt =====
-- crates/std-server/src/app.rs: the handler of the standard profile. The asset source over the file
-- system and the DEFLATE encoder are parameters; `gzip` is `none` in a build without that feature.
pub mod Limit
pub mod Allow
pub mod Profiles
pub mod Encoding
pub mod Logging
use ferro_http.Http.Request.{
  Version, http10, http11, Header, Request, Result, ok, err, panic, out_of_fuel, ◌>>=◌, ◌>>◌, guard,
  ok_or, header_is, ParseError, head_too_large, too_many_headers, malformed_request_line,
  unknown_method, target_too_long, unsupported_version, bare_cr, bad_host, malformed_header,
  bad_content_length, conflicting_framing, unsupported_transfer_encoding, malformed_chunk,
  body_too_large, find_header, header, keep_alive, absolute_form_path, split_scheme, >>=-eq-ok,
  guard-eq-ok, ok_or-eq-ok, ok-injective, path,
}
use ferro_http.Base.{
  ℕ, zero, suc, ◌+◌, ◌-◌, ◌*◌, ◌/◌, ◌%◌, ◌^◌, ◌≤◌, ◌<◌, min, ◌≡◌, refl, sym, ap, ◌∙◌, ◌≢◌, ◌↔◌, ◌⊎◌,
  inl, inr, Bool, true, false, not, ◌&&◌, ◌||◌, Option, none, some, List, [], ◌∷◌, ◌++◌, map,
  append_assoc, append-nil, arith, ltb, leb, ◌==◌, if◌then◌else◌, ltb→lt, lt→ltb, leb→le, ==_iff,
  Bool-cases, Option-cases, length, get_elem?, get_or, replicate, take, drop, length-append,
  length-take, length-drop, take-append-drop, take-append, drop-append, Bytes, codes, within,
  bytes_eq, bytes_eq_iff, is_empty, all, any, filter, position, find, u64_max, u32_max,
  is_ascii_digit, is_ascii_alphabetic, is_ascii_alphanumeric, eq_ignore_ascii_case, starts_with,
  strip_prefix, split_once, split, utf8_valid, trim, parse_digits, parse_uint, dec_digits,
  print_dec, to_ascii_lowercase, wrapping_add, print_hex, cons_head, hex_digits,
}
use mathlib.Core.Option
use ferro_http.Config.{CompressionConfig}
use ferro_http.Asset.{AssetSource}
use ferro_http.Compress.{gzip_encode}
use ferro_http.Conn.{RequestContext}
use ferro_http.Http.Method.{Method, get, head, options, method_eq, as_str}
use ferro_http.Http.Range.{response_header}
use ferro_http.Http.Response.{Response, new_response, text, with_header}
use ferro_http.Http.Status.{StatusCode, status}
use ferro_http.Query.{join_media_types, first_or_empty}
use ferro_http.Router.{
  Router, dispatch, allowed_methods, registered_methods, contains_method, response_or,
}
use ferro_http.Security.{RateLimiter, Decision, allow, deny, check}
use ferro_http.StaticFiles.{serve_static, static_exists}
use ferro_http.Http.Conditional.{evaluate}

pub record App : Type 0 where
  pub router : Router
  pub assets : AssetSource
  pub index_files : List Bytes
  pub mime_overrides : List (Bytes × Bytes)
  pub rate_limiter : Option RateLimiter
  pub access_log : Bool
  pub compression : CompressionConfig

-- What `log` prints of the peer: the four octets of an IPv4 address or the sixteen of an IPv6 one. The
-- text of each is the standard library's.
pub data PeerAddress : Type 0 where
  v4 v6 : Bytes → PeerAddress

-- `Ipv6Addr::to_ipv4_mapped`: ten octets of zero and two of 0xff before the IPv4 address.
unfoldable pub peer_address : Bytes → PeerAddress
peer_address octets =
    if bytes_eq (take 12 octets) (replicate 10 0 ++ 0xff ∷ 0xff ∷ [])
    then v4 (drop 12 octets)
    else v6 octets

-- One line of the access log: the peer, the method, the path and the status.
pub record LogLine : Type 0 where
  pub peer : PeerAddress
  pub method : Bytes
  pub path : Bytes
  pub code : ℕ

-- The pushes of `allow_header_value`: HEAD with GET, and OPTIONS.
abbrev pub push_method : Bool → Method → List Method → List Method
push_method wanted m ms = if wanted && not (contains_method m ms) then ms ++ m ∷ [] else ms

abbrev pub with_implied : List Method → List Method
with_implied ms = push_method true options (push_method (contains_method get ms) head ms)

unfoldable pub allow_header_value : List Method → Bytes
allow_header_value allowed = join_media_types (map as_str (with_implied allowed))

-- OPTIONS in asterisk form.
abbrev pub is_server_wide : Request → Bool
is_server_wide request = method_eq request.method options && bytes_eq request.target (codes "*")

unfoldable pub server_options : App → Response
server_options app =
    with_header (new_response (status 200)) (codes "Allow")
      (allow_header_value (push_method true get (registered_methods app.router)))

-- The answer for a known resource whose method did not match.
unfoldable pub discovery : Request → Bytes → Response
discovery request methods =
    if method_eq request.method options
    then with_header (new_response (status 200)) (codes "Allow") methods
    else with_header (text (status 405) (codes "405 Method Not Allowed")) (codes "Allow") methods

-- What `dispatch` does where neither a route nor a file answers, on the methods of the path.
unfoldable pub fallback : App → Request → List Method → Response
fallback app request allowed =
    if not (is_empty allowed)
    then discovery request (allow_header_value allowed)
    else if static_exists (path request) app.index_files app.assets
    then discovery request (codes "GET, HEAD, OPTIONS")
    else text (status 404) (codes "404 Not Found")

-- The arm of the static files: an asset, after the preconditions and the range.
unfoldable pub serve_asset : App → Request → Option Response
serve_asset app request =
    if method_eq request.method get || method_eq request.method head
    then Option.map (evaluate request)
        (serve_static (path request) app.index_files app.assets app.mime_overrides)
    else none

unfoldable pub dispatch_app : App → Request → Response
dispatch_app app request =
    if is_server_wide request
    then server_options app
    else response_or (dispatch app.router request) (
        response_or (serve_asset app request)
          (fallback app request (allowed_methods app.router (path request))))

unfoldable pub accepts_gzip_in : Option Bytes → Bool
accepts_gzip_in none = false
accepts_gzip_in (some value) =
    any (λ enc. eq_ignore_ascii_case (first_or_empty (split b';' (trim enc))) (codes "gzip"))
      (split b',' value)

unfoldable pub accepts_gzip : Request → Bool
accepts_gzip request = accepts_gzip_in (header request (codes "accept-encoding"))

-- The prefixes of the types that compress.
unfoldable pub is_compressible_type : Option Bytes → Bool
is_compressible_type none = false
is_compressible_type (some content_type) =
    let ct = map to_ascii_lowercase content_type in
    starts_with ct (codes "text/")
    || starts_with ct (codes "application/json")
    || starts_with ct (codes "application/xml")
    || starts_with ct (codes "application/javascript")
    || starts_with ct (codes "image/svg+xml")

unfoldable pub is_compressible : Response → Bool
is_compressible r = is_compressible_type (response_header r (codes "content-type"))

abbrev pub is_present : Option Bytes → Bool
is_present none = false
is_present (some v) = true

-- `has_header`
unfoldable pub has_header : Response → Bytes → Bool
has_header r name = is_present (response_header r name)

-- `post_process`, in a build with the feature and without it.
unfoldable pub post_process : Option (Bytes → Bytes) → App → Request → Response → Response
post_process none app request r = r
post_process (some deflate) app request r =
    if not app.compression.gzip
      || ltb (length r.body) app.compression.min_bytes
      || not (accepts_gzip request)
      || not (is_compressible r)
      || has_header r (codes "content-encoding")
    then r
    else with_header
        (with_header (record r { body = gzip_encode deflate r.body }) (codes "Content-Encoding")
          (codes "gzip"))
        (codes "Vary") (codes "Accept-Encoding")

-- What `log` writes.
unfoldable pub log : App → Request → RequestContext → StatusCode → List LogLine
log app request ctx s =
    if not app.access_log
    then []
    else record {
      peer = peer_address ctx.peer;
      method = as_str request.method;
      path = path request;
      code = s.code;
    }
      ∷ []

unfoldable pub too_many : ℕ → Response
too_many after =
    with_header (text (status 429) (codes "429 Too Many Requests")) (codes "Retry-After")
      (print_dec after)

-- What `handle` leaves: the app, with its limiter, the response and what it logged.
pub record Handled : Type 0 where
  pub app : App
  pub response : Response
  pub logged : List LogLine

unfoldable pub respond : App → Request → RequestContext → Response → Handled
respond app request ctx r = record {
  app = app;
  response = r;
  logged = log app request ctx r.status;
}

unfoldable pub serve_allowed : Option (Bytes → Bytes) → App → Request → RequestContext → Handled
serve_allowed gzip app request ctx =
    respond app request ctx (post_process gzip app request (dispatch_app app request))

-- `handle` on the decision of the limiter, the app with the limiter after it.
unfoldable pub decide : Option (Bytes → Bytes) → App → Request → RequestContext → Decision → Handled
decide gzip app request ctx (deny after) = respond app request ctx (too_many after)
decide gzip app request ctx allow = serve_allowed gzip app request ctx

unfoldable pub handle_limited :
    Option (Bytes → Bytes) → App → Request → RequestContext → Option RateLimiter → Handled
handle_limited gzip app request ctx none = serve_allowed gzip app request ctx
handle_limited gzip app request ctx (some l) =
    decide gzip (record app { rate_limiter = some (check ctx.peer ctx.now_unix_secs l).0 }) request
      ctx (check ctx.peer ctx.now_unix_secs l).1

-- `Service::handle` of `App`
unfoldable pub handle : Option (Bytes → Bytes) → App → Request → RequestContext → Handled
handle gzip app request ctx = handle_limited gzip app request ctx app.rate_limiter
