-- ===== src/Router/Dispatch.antt =====
-- crates/core/src/router.rs: dispatch and the methods that a path allows agree.
use ferro_http.Http.Request.{Request, path}
use ferro_http.Base.{
  ◌≡◌, refl, ap, ◌∙◌, ◌⊎◌, inl, inr, Bool, true, false, not, ◌&&◌, ◌||◌, Option, none, some, List,
  [], ◌∷◌, ◌++◌, arith, if◌then◌else◌, Bytes, any,
}
use ferro_http.Http.Method.{Method, get, head, method_eq, method_eq_iff}
use ferro_http.Http.Response.{Response}
use ferro_http.Router.{
  Route, Params, match_segments, is_match, method_matches, contains_method, dispatch_in, dispatch,
  allowed_in, allowed_methods,
}

-- The route answers the request, with these parameters.
abbrev pub Answers : Route → Request → Params → Type 0
Answers r request params =
    (method_matches r.method request.method ≡ true)
    × (match_segments r.segments (path request) ≡ some params)

abbrev pub NoAnswer : List Route → Request → Type 0
NoAnswer [] request = Unit
NoAnswer (r ∷ rs) request = ((params : Params) → Answers r request params → ⊥) × NoAnswer rs request

-- The response comes from the first route that answers.
abbrev pub FirstAnswer : List Route → Request → Response → Type 0
FirstAnswer rs request response =
    (before : List Route) × (r : Route) × (after : List Route) × (params : Params) × (rs
      ≡ before ++ r ∷ after)
    × NoAnswer before request
    × Answers r request params
    × (response ≡ r.handler request params)

-- One turn of the loop: the route does not answer and the rest decides, or it answers.
turn :
    (same : Bool) (matched : Option Params) (handler : Params → Response) (rest : Option Response)
    (response : Response)
    → (if not same then rest else elim matched [ some p ↦ some (handler p) | none ↦ rest ])
      ≡ some response
    → (((p : Params) → (same ≡ true) × (matched ≡ some p) → ⊥) × (rest ≡ some response))
      ⊎ ((p : Params) × (same ≡ true) × (matched ≡ some p) × (response ≡ handler p))
turn false matched handler rest response h = inl (λ p a. cc (a.0), h)
turn true none handler rest response h = inl (λ p a. cc (a.1), h)
turn true (some p) handler rest response h = inr (p, refl, refl, cc)

-- Where a router answers a request, the response is that of the first route in the order of
-- registration whose method and pattern match, called with the parameters of the path.
pub dispatch-FirstAnswer :
    (rs : List Route) (request : Request) (response : Response)
    → dispatch (record { routes = rs }) request ≡ some response
    → FirstAnswer rs request response
unfolding dispatch dispatch_in
dispatch-FirstAnswer [] request response h = cc
dispatch-FirstAnswer (r ∷ rs) request response h =
    elim (turn (method_matches r.method request.method) (match_segments r.segments (path request))
      (r.handler request) (dispatch_in rs request) response h) [
        | inl (silent, h') ↦
            let (before, answering, after, params, eq, none_before, answers, same) =
              dispatch-FirstAnswer rs request response h' in
            (
              r ∷ before,
              answering,
              after,
              params,
              ap (λ rs. r ∷ rs) eq,
              (silent, none_before),
              answers,
              same,
            )
        | inr (params, same, matched, eq) ↦ ([], r, rs, params, refl, tt, (same, matched), eq)
      ]

abbrev pub is_some : Option Response → Bool
is_some none = false
is_some (some r) = true

abbrev registered : Method → Bytes → Route → Bool
registered m p r = method_eq r.method m && is_match (match_segments r.segments p)

pub contains-append :
    (m x : Method) (ms : List Method)
    → contains_method m (ms ++ x ∷ []) ≡ (contains_method m ms || method_eq x m)
unfolding contains_method
contains-append m x [] = ground arith
contains-append m x (y ∷ ms) = ground (arith, contains-append m x ms)

contains-allowed :
    (m : Method) (p : Bytes) (rs : List Route) (ms : List Method)
    → contains_method m (allowed_in rs p ms) ≡ (contains_method m ms || any (registered m p) rs)
unfolding allowed_in
contains-allowed m p [] ms = ground arith
contains-allowed m p (r ∷ rs) ms = ground (
  arith,
  contains-allowed m p rs ms,
  contains-allowed m p rs (ms ++ r.method ∷ []),
  contains-append m r.method ms,
  method_eq_iff r.method m,
)

-- Where some route answers.
some-dispatch :
    (rs : List Route) (request : Request)
    → is_some (dispatch (record { routes = rs }) request)
      ≡ any
          (λ r.
            method_matches r.method request.method
            && is_match (match_segments r.segments (path request)))
          rs
unfolding dispatch dispatch_in
some-dispatch [] request = refl
some-dispatch (r ∷ rs) request =
    at_turn (method_matches r.method request.method) (match_segments r.segments (path request)) _ _
      (some-dispatch rs request)
  where
    at_turn :
        (same : Bool) (matched : Option Params) (rest : Option Response) (others : Bool)
        → is_some rest ≡ others
        → is_some (
            if not same
            then rest
            else elim matched [ some p ↦ some (r.handler request p) | none ↦ rest ])
          ≡ (same && is_match matched || others)
    at_turn false matched rest others h = h
    at_turn true none rest others h = h
    at_turn true (some p) rest others h = refl

any-method_matches :
    (m : Method) (p : Bytes) (rs : List Route)
    → any (λ r. method_matches r.method m && is_match (match_segments r.segments p)) rs
      ≡ (any (registered m p) rs || (method_eq m head && any (registered get p) rs))
unfolding method_matches
any-method_matches m p [] = ground arith
any-method_matches m p (r ∷ rs) = ground (arith, any-method_matches m p rs)

-- A router answers a request exactly when its method is among the allowed methods of its path, or
-- it is HEAD and GET is among them: what the router advertises is what it serves.
pub dispatch-allowed :
    (rs : List Route) (request : Request)
    → is_some (dispatch (record { routes = rs }) request) ≡ (
        contains_method request.method (allowed_methods (record { routes = rs }) (path request))
        || (method_eq request.method head
            && contains_method get (allowed_methods (record { routes = rs }) (path request))))
unfolding allowed_methods contains_method
dispatch-allowed rs request =
    rw
      (
        contains-allowed request.method (path request) rs [],
        contains-allowed get (path request) rs [],
      )
      (some-dispatch rs request ∙ any-method_matches request.method (path request) rs)
