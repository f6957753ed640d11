-- ===== src/Http/Conditional/Precedence.antt =====
-- crates/core/src/http/conditional.rs: what a precondition decides.
use ferro_http.Http.Request.{Request}
use ferro_http.Base.{◌≡◌}
use ferro_http.Http.Status.{status}
use ferro_http.Http.Response.{Response}

-- The second response has the status and the body of the first.
abbrev Keeps : Response → Response → Type 0
Keeps to r = (r.status ≡ to.status) × (r.body ≡ to.body)
