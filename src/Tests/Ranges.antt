-- ===== src/Tests/Ranges.antt =====
-- Runs of the date reader, the byte ranges and the preconditions.
use ferro_http.Http.Request.{http11, Request, find_header, header}
use ferro_http.Base.{
  ◌≡◌, refl, none, some, [], ◌∷◌, ◌++◌, length, codes, bytes_eq, eq_ignore_ascii_case, strip_prefix,
  split_once, split, trim, parse_digits, parse_uint, to_ascii_lowercase,
}
use ferro_http.Http.Date.Parse.{
  parse_http_date, parse_i64, days_from_civil, i64_neg, i64_add, i64_sub, i64_mul, i64_div,
}
use ferro_http.Http.Method.{get}
use ferro_http.Http.Status.{status}
use ferro_http.Http.Response.{Response}
use ferro_http.Http.Range.{
  satisfiable, suffix_range, range_of, parse_spec, parse_single_range, apply_range,
}
use ferro_http.Http.Range.Bounds.{InRange, parse_single_range-InRange, apply_range_lem}

parse-date : parse_http_date (codes "Fri, 13 Feb 2009 23:31:30 GMT") ≡ some 1234567890
unfolding parse_http_date parse_i64 days_from_civil i64_neg i64_add i64_sub i64_mul i64_div
    parse_uint parse_digits split bytes_eq
parse-date = refl

parse-before_epoch : parse_http_date (codes "Wed, 31 Dec 1969 23:59:59 GMT") ≡ none
unfolding parse_http_date parse_i64 days_from_civil i64_neg i64_add i64_sub i64_mul i64_div
    parse_uint parse_digits split bytes_eq
parse-before_epoch = refl

abbrev ranged_request : Request
ranged_request = record {
  method = get;
  target = codes "/";
  version = http11;
  headers =
      record { name = codes "Range"; value = codes "bytes=-3" }
      ∷ record { name = codes "If-None-Match"; value = codes "W/a, b" }
      ∷ [];
  body = [];
}

abbrev full_response : Response
full_response = record {
  status = status 200;
  headers = (codes "ETag", codes "c") ∷ [];
  body = codes "hello";
}

ranged-header : header ranged_request (codes "range") ≡ some (codes "bytes=-3")
unfolding header find_header eq_ignore_ascii_case to_ascii_lowercase
ranged-header = refl

parse-suffix : parse_single_range (codes "bytes=-3") 5 ≡ some (satisfiable 2 4)
unfolding parse_single_range parse_spec range_of suffix_range strip_prefix split_once trim
    parse_uint parse_digits
parse-suffix = refl

parse_single_range-InRange_example : InRange 5 (parse_single_range (codes "bytes=-3") 5)
parse_single_range-InRange_example = parse_single_range-InRange (codes "bytes=-3") 5

apply_range_lem_example :
    (codes "he" ++ ((apply_range ranged_request full_response).body ++ []) ≡ codes "hello")
    × (length (apply_range ranged_request full_response).body ≡ 3)
apply_range_lem_example =
    apply_range_lem ranged_request full_response (codes "bytes=-3") 2 4 ranged-header parse-suffix
