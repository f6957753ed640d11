-- ===== src/App/Profiles.antt =====
-- crates/std-server/src/app.rs and crates/embedded/src/app.rs: the standard handler refines the
-- embedded one.
use ferro_http.Http.Request.{Request, path}
use ferro_http.Base.{
  ◌≡◌, refl, ap, inl, inr, Bool, true, false, ◌&&◌, ◌||◌, Option, none, some, List, [], ◌∷◌, map,
  arith, if◌then◌else◌, Bool-cases, codes, is_empty, eq_ignore_ascii_case, to_ascii_lowercase,
}
use ferro_http.Conn.{RequestContext}
use ferro_http.Http.Method.{Method, get, head, options, method_eq, as_str}
use ferro_http.Http.Range.{response_header, find_field}
use ferro_http.Http.Response.{Response, text}
use ferro_http.Http.Status.{status}
use ferro_http.Query.{join_media_types, join_rest}
use ferro_http.Router.{dispatch, response_or, allowed_methods, contains_method}
use ferro_http.Router.Dispatch.{dispatch-allowed, is_some}
use ferro_http.StaticFiles.{static_exists}
use ferro_http.Embedded.StaticRouter
use ferro_http.Embedded.StaticRouter.{StaticRouter, not_found, serve_file, first_response}
use ferro_http.App.{
  App, is_server_wide, discovery, fallback, dispatch_app, serve_asset, allow_header_value,
  with_implied,
}
use ferro_http.App.Allow.{contains-with_implied, method_eq_comm}

-- The embedded handler with the same routes and assets.
abbrev pub embedded_part : App → StaticRouter
embedded_part app = record {
  router = app.router;
  assets = app.assets;
  index_files = app.index_files;
  mime_overrides = app.mime_overrides;
}

-- Whether the routes would answer the request if it had this method.
abbrev pub answers : App → Request → Method → Bool
answers app request m = is_some (dispatch app.router (record request { method = m }))

-- The response tells these methods: 200 to OPTIONS and 405 to another method, with their names, a
-- comma and a space between them, in `Allow`.
abbrev pub Tells : Request → List Method → Response → Type 0
Tells request named r =
    (r.status ≡ status (if method_eq request.method options then 200 else 405))
    × (response_header r (codes "Allow") ≡ some (join_media_types (map as_str named)))

-- How a response answers where that of the embedded handler is given: a route or an asset answers,
-- and both are the same; no method of the path and no asset is known, and both are 404; or the
-- embedded one is 404 and the other tells the methods, those that the routes answer at this path and
-- OPTIONS, or those of an asset.
pub data Refines (app : App) (request : Request) (embedded r : Response) : Type 0 where
  served : answers app request request.method ≡ true → r ≡ embedded → Refines app request embedded r
  sent : is_some (serve_asset app request) ≡ true → r ≡ embedded → Refines app request embedded r
  unknown :
      ((m : Method) → answers app request m ≡ false)
      → static_exists (path request) app.index_files app.assets ≡ false
      → embedded ≡ not_found
      → r ≡ not_found
      → Refines app request embedded r
  routed :
      (named : List Method)
      → ((m : Method) → contains_method m named ≡ (answers app request m || method_eq m options))
      → embedded ≡ not_found
      → Tells request named r
      → Refines app request embedded r
  stored :
      ((m : Method) → answers app request m ≡ false)
      → static_exists (path request) app.index_files app.assets ≡ true
      → embedded ≡ not_found
      → Tells request (get ∷ head ∷ options ∷ []) r
      → Refines app request embedded r

serve_asset-file :
    (app : App) (request : Request)
    → serve_asset app request ≡ serve_file app.index_files app.assets app.mime_overrides request
unfolding serve_asset
serve_asset-file app request = refl

discovery-Tells :
    (request : Request) (named : List Method)
    → Tells request named (discovery request (join_media_types (map as_str named)))
unfolding discovery response_header find_field eq_ignore_ascii_case to_ascii_lowercase text
discovery-Tells request named = elim (Bool-cases (method_eq request.method options)) [
  | inl asked ↦ rw asked (refl, refl)
  | inr other ↦ rw other (refl, refl)
]

-- What the routes answer, from the methods of the path.
answers-allowed :
    (app : App) (request : Request) (m : Method)
    → answers app request m ≡ (
        contains_method m (allowed_methods app.router (path request))
        || (method_eq m head && contains_method get (allowed_methods app.router (path request))))
unfolding path
answers-allowed app request m = dispatch-allowed app.router.routes (record request { method = m })

-- The methods that `Allow` names for a path with routes.
named_answers :
    (app : App) (request : Request) (m : Method)
    → contains_method m (with_implied (allowed_methods app.router (path request)))
      ≡ (answers app request m || method_eq m options)
named_answers app request m = ground (
  arith,
  contains-with_implied m (allowed_methods app.router (path request)),
  answers-allowed app request m,
  method_eq_comm m head,
  method_eq_comm m options,
)

contains-empty : (m : Method) (ms : List Method) → is_empty ms ≡ true → contains_method m ms ≡ false
unfolding contains_method
contains-empty m [] empty = refl
contains-empty m (x ∷ ms) empty = cc

no_answers :
    (app : App) (request : Request)
    → is_empty (allowed_methods app.router (path request)) ≡ true
    → (m : Method) → answers app request m ≡ false
no_answers app request empty m = ground (
  arith,
  answers-allowed app request m,
  contains-empty m (allowed_methods app.router (path request)) empty,
  contains-empty get (allowed_methods app.router (path request)) empty,
)

fallback-Refines :
    (app : App) (request : Request)
    → Refines app request not_found
        (fallback app request (allowed_methods app.router (path request)))
unfolding fallback allow_header_value join_media_types as_str join_rest
fallback-Refines app request =
    elim (Bool-cases (is_empty (allowed_methods app.router (path request)))) [
      | inl empty ↦ elim (Bool-cases (static_exists (path request) app.index_files app.assets)) [
        | inl exists ↦
            rw (empty, exists)
              (stored (no_answers app request empty) exists refl
                (discovery-Tells request (get ∷ head ∷ options ∷ [])))
        | inr missing ↦
            rw (empty, missing) (unknown (no_answers app request empty) missing refl refl)
      ]
      | inr some_methods ↦ rw some_methods (
          routed (with_implied (allowed_methods app.router (path request)))
            (named_answers app request) refl
            (discovery-Tells request (with_implied (allowed_methods app.router (path request)))))
    ]

-- But for OPTIONS *, the standard handler refines the embedded one with the same routes and assets:
-- where a route or an asset answers, both answer the same; where the embedded one answers 404, the
-- standard one answers 200 to OPTIONS or 405 to another method, and names in `Allow` exactly the
-- methods that the routes answer at this path and OPTIONS, or those of an asset where there are no
-- such routes; it answers 404 where there is no asset either.
pub dispatch_app-refines :
    (app : App) (request : Request) (ctx : RequestContext)
    → is_server_wide request ≡ false
    → Refines app request
        (StaticRouter.handle (embedded_part app) request ctx)
        (dispatch_app app request)
unfolding dispatch_app StaticRouter.handle
dispatch_app-refines app request ctx ordinary =
    rw (ordinary, ← serve_asset-file app request)
      (at_found (dispatch app.router request) (serve_asset app request) refl refl)
  where
    at_found :
        (route file : Option Response)
        → dispatch app.router request ≡ route
        → serve_asset app request ≡ file
        → Refines app request (response_or (first_response route file) not_found) (
            response_or route
              (response_or file (fallback app request (allowed_methods app.router (path request)))))
    at_found none none by_route by_file = fallback-Refines app request
    at_found none (some r) by_route by_file = sent (ap is_some by_file) refl
    at_found (some r) other by_route by_file = served (ap is_some by_route) refl
