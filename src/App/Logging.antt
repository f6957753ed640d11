-- ===== src/App/Logging.antt =====
-- crates/std-server/src/app.rs and transport_mio.rs: the line of the access log for a request.
use ferro_http.Http.Request.{Request, path}
use ferro_http.Base.{
  ◌≡◌, refl, ap, ◌∙◌, inl, inr, Option, none, some, List, [], ◌∷◌, ◌++◌, if◌then◌else◌, Bool-cases,
  replicate, Bytes, bytes_eq,
}
use ferro_http.Conn.{RequestContext}
use ferro_http.Http.Method.{as_str}
use ferro_http.Http.Status.{StatusCode}
use ferro_http.Security.{RateLimiter, Decision, allow, deny, check}
use ferro_http.App.{
  App, PeerAddress, v4, v6, peer_address, LogLine, log, respond, serve_allowed, decide,
  handle_limited, handle,
}

-- The key that the transport gives to a peer: an IPv4 address is mapped into IPv6.
unfoldable pub ip_key : PeerAddress → Bytes
ip_key (v4 octets) = replicate 10 0 ++ 0xff ∷ 0xff ∷ octets
ip_key (v6 octets) = octets

-- The lines for a request that a peer sent and that was answered with this status.
abbrev pub lines_for : App → PeerAddress → Request → StatusCode → List LogLine
lines_for app peer request s =
    if app.access_log
    then record { peer = peer; method = as_str request.method; path = path request; code = s.code }
      ∷ []
    else []

peer_address-mapped : (octets : Bytes) → peer_address (ip_key (v4 octets)) ≡ v4 octets
unfolding peer_address ip_key bytes_eq
peer_address-mapped octets = refl

log-mapped :
    (app : App) (request : Request) (ctx : RequestContext) (octets : Bytes) (s : StatusCode)
    → ctx.peer ≡ ip_key (v4 octets)
    → log app request ctx s ≡ lines_for app (v4 octets) request s
unfolding log
log-mapped app request ctx octets s from =
    let shown : peer_address ctx.peer ≡ v4 octets =
      ap peer_address from ∙ peer_address-mapped octets in
    elim (Bool-cases app.access_log) [ inl on ↦ rw (on, shown) refl | inr off ↦ rw off refl ]

decide-logged :
    (gzip : Option (Bytes → Bytes)) (app : App) (request : Request) (ctx : RequestContext)
    (octets : Bytes) (d : Decision)
    → ctx.peer ≡ ip_key (v4 octets)
    → (decide gzip app request ctx d).logged
      ≡ lines_for app (v4 octets) request (decide gzip app request ctx d).response.status
unfolding decide serve_allowed respond
decide-logged gzip app request ctx octets allow from = log-mapped app request ctx octets _ from
decide-logged gzip app request ctx octets (deny after) from =
    log-mapped app request ctx octets _ from

-- For a request of an IPv4 client, whether the limiter lets it through, denies it or is not there, the
-- handler logs one line where the access log is enabled, and else none: the client's IPv4 address, not
-- its mapping into IPv6, the method, the path and the status of the response that the client gets.
pub handle-logged :
    (gzip : Option (Bytes → Bytes)) (app : App) (request : Request) (ctx : RequestContext)
    (octets : Bytes)
    → ctx.peer ≡ ip_key (v4 octets)
    → (handle gzip app request ctx).logged
      ≡ lines_for app (v4 octets) request (handle gzip app request ctx).response.status
unfolding handle handle_limited decide
handle-logged gzip app request ctx octets from = at_limiter app.rate_limiter
  where
    at_limiter :
        (l : Option RateLimiter)
        → (handle_limited gzip app request ctx l).logged
          ≡ lines_for app
              (v4 octets)
              request
              (handle_limited gzip app request ctx l).response.status
    at_limiter none = decide-logged gzip app request ctx octets allow from
    at_limiter (some l) =
        decide-logged gzip
          (record app { rate_limiter = some (check ctx.peer ctx.now_unix_secs l).0 }) request ctx
          octets (check ctx.peer ctx.now_unix_secs l).1 from
