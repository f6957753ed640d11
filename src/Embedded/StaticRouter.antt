-- ===== src/Embedded/StaticRouter.antt =====
-- crates/embedded/src/app.rs: the handler that tries the router and then the static files.
use ferro_http.Http.Request.{Request, path}
use ferro_http.Base.{Bool, ◌||◌, Option, none, some, List, if◌then◌else◌, Bytes, codes}
use ferro_http.Asset.{AssetSource}
use ferro_http.Http.Conditional.{evaluate}
use ferro_http.Http.Method.{Method, get, head, method_eq}
use ferro_http.Http.Response.{Response, text}
use ferro_http.Http.Status.{status}
use ferro_http.Router.{Router, dispatch, response_or}
use ferro_http.StaticFiles.{serve_static}
use ferro_http.Conn.{Service}

pub record StaticRouter : Type 0 where
  pub router : Router
  pub assets : AssetSource
  pub index_files : List Bytes
  pub mime_overrides : List (Bytes × Bytes)

-- `matches!(method, Get | Head)`
abbrev pub is_get_or_head : Method → Bool
is_get_or_head m = method_eq m get || method_eq m head

abbrev pub not_found : Response
not_found = text (status 404) (codes "404 Not Found")

-- The arm of the static files: an asset, after the preconditions and the range.
abbrev pub static_response : Request → Option Response → Option Response
static_response request none = none
static_response request (some r) = some (evaluate request r)

abbrev pub serve_file : List Bytes → AssetSource → List (Bytes × Bytes) → Request → Option Response
serve_file index_files assets overrides request =
    if is_get_or_head request.method
    then static_response request (serve_static (path request) index_files assets overrides)
    else none

abbrev pub first_response : Option Response → Option Response → Option Response
first_response none later = later
first_response (some r) later = some r

-- `Service::handle` of `StaticRouter`
unfoldable pub handle : StaticRouter → Service
handle s request ctx =
    response_or
      (first_response (dispatch s.router request)
        (serve_file s.index_files s.assets s.mime_overrides request))
      not_found
