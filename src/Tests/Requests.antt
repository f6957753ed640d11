-- ===== src/Tests/Requests.antt =====
-- Runs of the request parser.
use ferro_http.Http.Request.{
  http10, http11, Header, Request, ok, panic, out_of_fuel, header_is, path, absolute_form_path,
  split_scheme,
}
use ferro_http.Base.{
  ℕ, ◌+◌, ◌≡◌, refl, ◌≢◌, ◌↔◌, some, List, [], ◌∷◌, ◌++◌, arith, take, drop, Bytes, codes, filter,
  u64_max, starts_with, split_once, trim, parse_uint,
}
use ferro_http.Http.Method.{get, post, put, from_bytes, as_str, from_bytes_iff}
use ferro_http.Http.Request.Scan.{find_subslice, split_crlf, crlf_crlf}
use ferro_http.Http.Request.Fields.{chunked}
use ferro_http.Http.Request.Chunk.{decode_chunked}
use ferro_http.Http.Request.Chunk.Overflow.{size_line, decode_chunked_overflow}
use ferro_http.Http.Request.Line.Laws.{IsRequestLine}
use ferro_http.Http.Request.Parse.{parse_with, parse_head, Head, done, expect_action, proceed}
use ferro_http.Http.Request.Parse.Stable.{parse_with-append}
use ferro_http.Http.Request.Parse.Bounds
use ferro_http.Http.Request.Parse.Bounds.{parse_with-IsBounded, parse_with_content_length}
use ferro_http.Http.Request.Parse.Fields.{
  IsWellFormed, parse_with-IsWellFormed, parse_with-IsRequestLine,
}
use ferro_http.Http.Request.Parse.Total.{parse_with-ne-out_of_fuel, parse_with_panic}
use ferro_http.Tests.Runs.{parsing}

abbrev get_input : Bytes
get_input = codes "GET /a?b=1 HTTP/1.1\r\nHost: h\r\nX: y \r\n\r\nrest"

abbrev get_request : Request
get_request = record {
  method = get;
  target = codes "/a?b=1";
  version = http11;
  headers =
      record { name = codes "Host"; value = codes "h" }
      ∷ record { name = codes "X"; value = codes "y" }
      ∷ [];
  body = [];
}

parse-get_input : parse_with get_input 100 ≡ ok (done get_request 39)
unfolding parsing
parse-get_input = refl

path-get : path get_request ≡ codes "/a"
unfolding path absolute_form_path split_scheme split_once starts_with
path-get = refl

abbrev chunked_input : Bytes
chunked_input =
    codes
      "POST /u HTTP/1.1\r\nHost: h\r\nTransfer-Encoding: chunked\r\n\r\n5\r\nhello\r\n6;ext=1\r\n world\r\n0\r\nT: v\r\n\r\nGET"

abbrev chunked_request : Request
chunked_request = record {
  method = post;
  target = codes "/u";
  version = http11;
  headers =
      record { name = codes "Host"; value = codes "h" }
      ∷ record { name = codes "Transfer-Encoding"; value = codes "chunked" }
      ∷ [];
  body = codes "hello world";
}

parse-chunked_input : parse_with chunked_input 100 ≡ ok (done chunked_request 95)
unfolding parsing
parse-chunked_input = refl

parse_with-append_example : parse_with (get_input ++ codes "GET") 100 ≡ ok (done get_request 39)
parse_with-append_example =
    parse_with-append get_input (codes "GET") 100 get_request 39 parse-get_input

parse_with-IsWellFormed_example : IsWellFormed chunked_request
parse_with-IsWellFormed_example =
    parse_with-IsWellFormed chunked_input 100 chunked_request 95 parse-chunked_input

parse_with-IsRequestLine_example :
    (line : Bytes) × (end : ℕ) × (lines : List Bytes) × (find_subslice get_input crlf_crlf
      ≡ some end)
    × (split_crlf (take end get_input) ≡ some (line ∷ lines))
    × IsRequestLine line get (codes "/a?b=1") http11
parse_with-IsRequestLine_example =
    parse_with-IsRequestLine get_input 100 get_request 39 parse-get_input

parse_with-IsBounded_example : Bounds.IsBounded chunked_input 100 chunked_request 95
parse_with-IsBounded_example =
    parse_with-IsBounded chunked_input 100 chunked_request 95 parse-chunked_input

abbrev length_header : Header
length_header = record { name = codes "content-length"; value = codes "5" }

abbrev length_input : Bytes
length_input = codes "PUT /u HTTP/1.0\r\ncontent-length: 5\r\n\r\nhello world"

abbrev length_request : Request
length_request = record {
  method = put;
  target = codes "/u";
  version = http10;
  headers = length_header ∷ [];
  body = codes "hello";
}

parse-length_input : parse_with length_input 5 ≡ ok (done length_request 43)
unfolding parsing
parse-length_input = refl

one_length : filter (header_is (codes "content-length")) length_request.headers ≡ length_header ∷ []
unfolding parsing
one_length = refl

parse_with_content_length_example :
    (len : ℕ) × (end : ℕ) × (parse_uint u64_max (trim (codes "5")) ≡ some len)
    × (find_subslice length_input crlf_crlf ≡ some end)
    × (codes "hello" ≡ take len (drop (end + 4) length_input))
    × (◌≡◌ {A = ℕ} 5 len)
    × (◌≡◌ {A = ℕ} 43 (end + 4 + len))
parse_with_content_length_example =
    parse_with_content_length length_input 5 length_request 43 length_header parse-length_input
      one_length

parse_with-ne-out_of_fuel_example : parse_with chunked_input 100 ≢ out_of_fuel
parse_with-ne-out_of_fuel_example = parse_with-ne-out_of_fuel chunked_input 100

-- A request whose chunk size wraps, as a client can send it.
abbrev wrapping_input : Bytes
wrapping_input =
    codes "POST / HTTP/1.1\r\nHost: h\r\nTransfer-Encoding: chunked\r\n\r\nfffffffffffffffe\r\n"

parse-wrapping_input : parse_with wrapping_input 100 ≡ panic
unfolding parsing
parse-wrapping_input = refl

parse_with_panic_example :
    (end : ℕ) × (h : Head) × (find_subslice wrapping_input crlf_crlf ≡ some end)
    × (parse_head wrapping_input end ≡ ok h)
    × (h.framing ≡ chunked)
parse_with_panic_example = parse_with_panic wrapping_input 100 (omega arith) parse-wrapping_input

decode_chunked_overflow_example : decode_chunked (size_line ++ codes "x") 10 ≡ panic
decode_chunked_overflow_example = decode_chunked_overflow (codes "x") 10

from_bytes_iff_example : (from_bytes (codes "get") ≡ some get) ↔ (codes "get" ≡ as_str get)
from_bytes_iff_example = from_bytes_iff (codes "get") get

expect-input :
    expect_action (codes "POST / HTTP/1.1\r\nExpect: 100-Continue\r\n\r\n") ≡ some proceed
unfolding parsing
expect-input = refl
