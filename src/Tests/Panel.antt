-- ===== src/Tests/Panel.antt =====
-- Runs of the counters and of the QUERY content type.
use ferro_http.Http.Request.{http11, Request, find_header, header}
use ferro_http.Base.{
  ℕ, ◌%◌, ◌^◌, ◌≡◌, refl, some, List, [], ◌∷◌, ◌++◌, length, Bytes, codes, eq_ignore_ascii_case,
  split, trim, to_ascii_lowercase, wrapping_add,
}
use ferro_http.Http.Method.{query}
use ferro_http.Query.{query_content_type_check, check_content_type, accept, media_type}
use ferro_http.Query.Parameters.{query_content_type_check_parameters}
use ferro_http.Stats.{new_stats, count_status, record_response}
use ferro_http.Stats.Balance.{
  record_all, answered, is_2xx, is_3xx, is_4xx, is_other, body_bytes, record_all_lem,
}

abbrev served : List (ℕ × ℕ)
served = (200, 100) ∷ (204, 0) ∷ (404, 50) ∷ (500, 10) ∷ []

record-served : record_all served new_stats ≡ record {
  total = 4;
  status_2xx = 2;
  status_3xx = 0;
  status_4xx = 1;
  status_5xx = 1;
  bytes_out = 160;
}
unfolding record_all record_response count_status wrapping_add
record-served = refl

record_all_lem_example :
    ((record_all served new_stats).total % 2 ^ 64 ≡ length served % 2 ^ 64)
    × ((record_all served new_stats).status_2xx % 2 ^ 64 ≡ answered is_2xx served % 2 ^ 64)
    × ((record_all served new_stats).status_3xx % 2 ^ 64 ≡ answered is_3xx served % 2 ^ 64)
    × ((record_all served new_stats).status_4xx % 2 ^ 64 ≡ answered is_4xx served % 2 ^ 64)
    × ((record_all served new_stats).status_5xx % 2 ^ 64 ≡ answered is_other served % 2 ^ 64)
    × ((record_all served new_stats).bytes_out % 2 ^ 64 ≡ body_bytes served % 2 ^ 64)
record_all_lem_example = record_all_lem served

abbrev query_request : Bytes → Request
query_request content_type = record {
  method = query;
  target = codes "/";
  version = http11;
  headers = record { name = codes "Content-Type"; value = content_type } ∷ [];
  body = [];
}

bare-type :
    header (query_request (codes "application/json")) (codes "content-type")
    ≡ some (codes "application/json")
unfolding header find_header eq_ignore_ascii_case to_ascii_lowercase
bare-type = refl

full-type :
    header (query_request (codes "application/json;a=b")) (codes "content-type")
    ≡ some (codes "application/json" ++ b';' ∷ codes "a=b")
unfolding header find_header eq_ignore_ascii_case to_ascii_lowercase
full-type = refl

abbrev accepted_types : List Bytes
accepted_types = codes "Application/JSON" ∷ []

check-bare :
    query_content_type_check (query_request (codes "application/json")) accepted_types ≡ accept
unfolding query_content_type_check check_content_type header find_header eq_ignore_ascii_case
    to_ascii_lowercase media_type split trim
check-bare = refl

query_content_type_check_parameters_example :
    query_content_type_check (query_request (codes "application/json;a=b")) accepted_types
    ≡ query_content_type_check (query_request (codes "application/json")) accepted_types
query_content_type_check_parameters_example =
    query_content_type_check_parameters (query_request (codes "application/json"))
      (query_request (codes "application/json;a=b")) (codes "application/json") (codes "a=b")
      accepted_types bare-type full-type
