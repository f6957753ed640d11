-- ===== src/App/Limit.antt =====
-- crates/std-server/src/app.rs: the limit of the rate limiter, seen from the clients.
use ferro_http.Http.Request.{Request}
use ferro_http.Base.{
  ℕ, ◌+◌, ◌≤◌, ◌<◌, ◌≡◌, refl, ap, Bool, true, false, not, ◌&&◌, Option, none, some, List, [], ◌∷◌,
  arith, ◌==◌, if◌then◌else◌, length, Bytes, bytes_eq, u64_max,
}
use ferro_http.Conn.{RequestContext}
use ferro_http.Security.{RateLimiter, Decision, allow, deny, check, find_entry, max_entries}
use ferro_http.Security.Window.{allowances, allowed, Within}
use ferro_http.Security.Limit.{allowed_fresh}
use ferro_http.Http.Response.{Response, text}
use ferro_http.App.{App, too_many, respond, serve_allowed, decide, handle_limited, handle}

-- The requests that a server gets, in the order in which it takes the limiter's lock.
abbrev pub Arrivals : Type 0
Arrivals = List (Request × RequestContext)

abbrev pub refused : Response → Bool
refused r = r.status.code == 429

-- The requests of the peer that are answered otherwise than 429.
unfoldable pub served : Option (Bytes → Bytes) → Bytes → App → Arrivals → ℕ
served gzip peer app [] = 0
served gzip peer app ((request, ctx) ∷ es) =
    (if bytes_eq ctx.peer peer && not (refused (handle gzip app request ctx).response)
      then 1
      else 0)
    + served gzip peer (handle gzip app request ctx).app es

abbrev pub arrival_times : Arrivals → List (Bytes × ℕ)
arrival_times [] = []
arrival_times ((request, ctx) ∷ es) = (ctx.peer, ctx.now_unix_secs) ∷ arrival_times es

both_le : {a b c d : ℕ} → a ≤ b → c ≤ d → a + c ≤ b + d
both_le p q = omega (arith, p, q)

one_at_most : (b : Bool) → (if not b then 1 else 0) ≤ 1
one_at_most true = omega arith
one_at_most false = omega arith

decide_counts :
    (gzip : Option (Bytes → Bytes)) (app : App) (request : Request) (ctx : RequestContext)
    (same : Bool) (d : Decision)
    → (if same && not (refused (decide gzip app request ctx d).response) then 1 else 0)
      ≤ (if same then allowances d else 0)
unfolding decide respond too_many text
decide_counts gzip app request ctx false d = omega arith
decide_counts gzip app request ctx true (deny after) = omega arith
decide_counts gzip app request ctx true allow =
    one_at_most (refused (decide gzip app request ctx allow).response)

decide_app :
    (gzip : Option (Bytes → Bytes)) (app : App) (request : Request) (ctx : RequestContext)
    (d : Decision)
    → (decide gzip app request ctx d).app ≡ app
unfolding decide respond serve_allowed
decide_app gzip app request ctx (deny after) = refl
decide_app gzip app request ctx allow = refl

handle-decide :
    (gzip : Option (Bytes → Bytes)) (app : App) (request : Request) (ctx : RequestContext)
    (l : RateLimiter)
    → app.rate_limiter ≡ some l
    → handle gzip app request ctx
      ≡ decide gzip
          (record app { rate_limiter = some (check ctx.peer ctx.now_unix_secs l).0 })
          request
          ctx
          (check ctx.peer ctx.now_unix_secs l).1
unfolding handle handle_limited
handle-decide gzip app request ctx l limited = ap (handle_limited gzip app request ctx) limited

served-le-allowed :
    (gzip : Option (Bytes → Bytes)) (peer : Bytes) (es : Arrivals) (app : App) (l : RateLimiter)
    → app.rate_limiter ≡ some l
    → served gzip peer app es ≤ allowed peer l (arrival_times es)
unfolding served allowed
served-le-allowed gzip peer [] app l limited = omega arith
served-le-allowed gzip peer ((request, ctx) ∷ es) app l limited =
    let app' : App = record app { rate_limiter = some (check ctx.peer ctx.now_unix_secs l).0 } in
    let d = (check ctx.peer ctx.now_unix_secs l).1 in
    rw (handle-decide gzip app request ctx l limited, served)
      (both_le (decide_counts gzip app' request ctx (bytes_eq ctx.peer peer) d) (
        served-le-allowed gzip peer es (decide gzip app' request ctx d).app
          (check ctx.peer ctx.now_unix_secs l).0
          (ap (λ a. a.rate_limiter) (decide_app gzip app' request ctx d))))

-- A peer that the limiter does not track sends requests to a server with it: of those in the `secs`
-- seconds that begin with its first one, `requests` at most are answered otherwise than 429, whatever
-- the handlers do and whatever the other peers send between them. The limiter is enabled and has
-- room at the first one, `secs` is at most the window and the ban, and the numbers stay below 2^64.
pub served_fresh :
    (gzip : Option (Bytes → Bytes)) (app : App) (l : RateLimiter) (secs : ℕ) (request : Request)
    (ctx : RequestContext) (es : Arrivals)
    → app.rate_limiter ≡ some l
    → l.config.enabled ≡ true
    → 0 < secs
    → secs ≤ l.config.window_secs
    → secs ≤ l.config.ban_secs
    → l.config.requests < u64_max
    → ctx.now_unix_secs + secs + l.config.ban_secs ≤ u64_max
    → find_entry ctx.peer l.entries ≡ none
    → length l.entries < max_entries
    → Within ctx.now_unix_secs secs (arrival_times es)
    → served gzip ctx.peer app ((request, ctx) ∷ es) ≤ l.config.requests
served_fresh gzip app l secs request ctx es limited on some_time window ban fit times absent room
      within_secs =
    omega (
      arith,
      served-le-allowed gzip ctx.peer ((request, ctx) ∷ es) app l limited,
      allowed_fresh ctx.peer l.config ctx.now_unix_secs secs on window ban fit times
          (arrival_times es) l refl some_time within_secs absent room,
    )
