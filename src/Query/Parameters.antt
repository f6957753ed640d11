-- ===== src/Query/Parameters.antt =====
-- crates/core/src/handler/query.rs: the parameters of a media type do not count.
use ferro_http.Http.Request.{Request, header}
use ferro_http.Base.{◌≡◌, refl, ap, some, List, ◌∷◌, ◌++◌, Bytes, codes, split, trim}
use ferro_http.Base.Splitting.{split-cons, split-append}
use ferro_http.Query.{first_or_empty, media_type, check_content_type, query_content_type_check}

media_type-append : (t params : Bytes) → media_type (t ++ b';' ∷ params) ≡ media_type t
unfolding media_type
media_type-append t params = ap trim first_same
  where
    first_same : first_or_empty (split b';' (t ++ b';' ∷ params)) ≡ first_or_empty (split b';' t)
    first_same =
        let (first, rest, eq) = split-cons b';' t in rw (split-append b';' t params, eq) refl

-- A request whose Content-Type is that of another with parameters behind it is checked alike,
-- whatever types are accepted.
pub query_content_type_check_parameters :
    (request other : Request) (t params : Bytes) (accepted : List Bytes)
    → header request (codes "content-type") ≡ some t
    → header other (codes "content-type") ≡ some (t ++ b';' ∷ params)
    → query_content_type_check other accepted ≡ query_content_type_check request accepted
unfolding query_content_type_check check_content_type
query_content_type_check_parameters request other t params accepted bare full =
    rw (bare, full) (rw (media_type-append t params) refl)
