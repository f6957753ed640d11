-- ===== src/Tests/Routes.antt =====
-- Runs of the router.
use ferro_http.Http.Request.{http11, Request, path, absolute_form_path, split_scheme}
use ferro_http.Base.{
  ◌≡◌, refl, ◌↔◌, ◌&&◌, ◌||◌, none, some, List, [], ◌∷◌, codes, bytes_eq, starts_with, split_once,
  split,
}
use ferro_http.Http.Method.{get, post, head, method_eq}
use ferro_http.Http.Status.{status}
use ferro_http.Http.Response.{text, new_response}
use ferro_http.Router.{
  Route, Handler, Params, Segment, static, param, split_path, parse_segment, parse_pattern,
  zip_segments, match_segments, method_matches, dispatch_in, dispatch, contains_method,
  allowed_methods, get_param,
}
use ferro_http.Router.Matching.{Matches, match_segments_iff}
use ferro_http.Router.Dispatch.{FirstAnswer, dispatch-FirstAnswer, dispatch-allowed, is_some}

-- A handler that answers with the id of the path.
abbrev show_id : Handler
show_id request params = elim (get_param params (codes "id")) [
  | none ↦ new_response (status 500)
  | some v ↦ text (status 200) v
]

abbrev pattern : List Segment
pattern = static (codes "users") ∷ param (codes "id") ∷ []

parse-pattern : parse_pattern (codes "/users/:id") ≡ pattern
unfolding parse_pattern parse_segment split_path split
parse-pattern = refl

abbrev user_routes : List Route
user_routes =
    record { method = post; segments = pattern; handler = show_id }
    ∷ record { method = get; segments = pattern; handler = show_id }
    ∷ []

abbrev user_request : Request
user_request = record {
  method = head;
  target = codes "/users/7/?x";
  version = http11;
  headers = [];
  body = [];
}

abbrev captures : Params
captures = record { pairs = (codes "id", codes "7") ∷ [] }

match-user : match_segments pattern (codes "/users/7/") ≡ some captures
unfolding match_segments zip_segments split_path split bytes_eq
match-user = refl

match_segments_iff_example :
    (match_segments pattern (codes "/users/7/") ≡ some captures)
    ↔ Matches pattern (split_path (codes "/users/7/")) captures.pairs
match_segments_iff_example = match_segments_iff pattern (codes "/users/7/") captures

dispatch-user :
    dispatch (record { routes = user_routes }) user_request ≡ some (show_id user_request captures)
unfolding dispatch dispatch_in match_segments zip_segments split_path split bytes_eq method_matches
    method_eq path absolute_form_path split_scheme split_once starts_with
dispatch-user = refl

dispatch-FirstAnswer_example : FirstAnswer user_routes user_request (show_id user_request captures)
dispatch-FirstAnswer_example =
    dispatch-FirstAnswer user_routes user_request (show_id user_request captures) dispatch-user

dispatch-allowed_example : is_some (dispatch (record { routes = user_routes }) user_request) ≡ (
    contains_method head (allowed_methods (record { routes = user_routes }) (path user_request))
    || (method_eq head head
        && contains_method get
            (allowed_methods (record { routes = user_routes }) (path user_request))))
dispatch-allowed_example = dispatch-allowed user_routes user_request
