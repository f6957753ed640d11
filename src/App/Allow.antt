-- ===== src/App/Allow.antt =====
-- crates/std-server/src/app.rs: what `Allow` says of a refused method.
use ferro_http.Http.Request.{Request, path}
use ferro_http.Base.{
  ◌≡◌, refl, sym, ap, ◌∙◌, Bool, true, false, ◌&&◌, ◌||◌, none, List, arith, codes, is_empty,
}
use ferro_http.Http.Method.{Method, get, head, options, method_eq, method_eq_iff}
use ferro_http.Http.Response.{text, with_header}
use ferro_http.Http.Status.{status}
use ferro_http.Router.{dispatch, allowed_methods, contains_method}
use ferro_http.Router.Dispatch.{dispatch-allowed, is_some, contains-append}
use ferro_http.App.{
  App, serve_asset, push_method, with_implied, allow_header_value, discovery, fallback,
  dispatch_app,
}

contains-push_method :
    (m : Method) (wanted : Bool) (x : Method) (ms : List Method)
    → contains_method m (push_method wanted x ms)
      ≡ (contains_method m ms || (wanted && method_eq x m))
contains-push_method m wanted x ms = ground (arith, contains-append m x ms, method_eq_iff x m)

-- The methods that `Allow` names, for the methods that some routes have.
pub contains-with_implied :
    (m : Method) (ms : List Method)
    → contains_method m (with_implied ms) ≡ (
        (contains_method m ms || (contains_method get ms && method_eq head m))
        || method_eq options m)
contains-with_implied m ms = ground (
  arith,
  contains-push_method m true options (push_method (contains_method get ms) head ms),
  contains-push_method m (contains_method get ms) head ms,
)

pub method_eq_comm : (a b : Method) → method_eq a b ≡ method_eq b a
method_eq_comm a b = ground (arith, method_eq_iff a b, method_eq_iff b a)

-- Where no route and no file answers a request for a path that has routes, and its method is not
-- OPTIONS, the answer is 405 with the `Allow` header of the path's methods, and the method is not
-- among those that it names.
pub dispatch_app_405 :
    (app : App) (request : Request)
    → dispatch app.router request ≡ none
    → serve_asset app request ≡ none
    → is_empty (allowed_methods app.router (path request)) ≡ false
    → method_eq request.method options ≡ false
    → (dispatch_app app request
        ≡ with_header
            (text (status 405) (codes "405 Method Not Allowed"))
            (codes "Allow")
            (allow_header_value (allowed_methods app.router (path request))))
      × (contains_method request.method (with_implied (allowed_methods app.router (path request)))
          ≡ false)
unfolding dispatch_app fallback discovery
dispatch_app_405 app request no_route no_file known other = (answer, named)
  where
    answer :
        dispatch_app app request
        ≡ with_header
            (text (status 405) (codes "405 Method Not Allowed"))
            (codes "Allow")
            (allow_header_value (allowed_methods app.router (path request)))
    answer = rw (other, dispatch_app) (rw (no_route, no_file) (rw known refl))

    unnamed :
        (listed with_get : Bool)
        → (listed || (method_eq request.method head && with_get)) ≡ false
        → ((listed || (with_get && method_eq head request.method))
            || method_eq options request.method)
          ≡ false
    unnamed listed with_get h =
        ground (
          arith,
          h,
          other,
          method_eq_comm head request.method,
          method_eq_comm options request.method,
        )

    named :
        contains_method request.method (with_implied (allowed_methods app.router (path request)))
        ≡ false
    named =
        contains-with_implied request.method (allowed_methods app.router (path request))
        ∙ unnamed (contains_method request.method (allowed_methods app.router (path request)))
            (contains_method get (allowed_methods app.router (path request)))
            (sym (dispatch-allowed app.router.routes request) ∙ ap is_some no_route)
