-- ===== src/Tests/Connections.antt =====
-- Runs of the date printer, the response writer and the connection.
use ferro_http.Http.Request.{http11, Request, ok}
use ferro_http.Base.{
  ℕ, ◌+◌, ◌≤◌, ◌≡◌, refl, ◌≢◌, true, false, some, [], ◌∷◌, take, drop, Bytes, codes,
  eq_ignore_ascii_case, print_dec,
}
use ferro_http.Http.Method.{get}
use ferro_http.Http.Status.{status, reason, is_empty_body}
use ferro_http.Http.Response.{
  Response, text, serialize, serialize_head, push_headers, is_written, has_forbidden_byte,
}
use ferro_http.Http.Response.Wire.{status_text, field_lines, body_on_wire, serialize_lines}
use ferro_http.Http.Request.Scan.{find_subslice, split_crlf, crlf_crlf}
use ferro_http.Http.Request.Parse.{parse_with, done, need_more}
use ferro_http.Conn.{
  Service, Connection, default_policy, feed, step, step_on, step_partial, write, interim,
}
use ferro_http.Conn.Pipeline.{step-feed}
use ferro_http.Conn.Interim.{stepped, run, NoRequest, open_writes, interim_once}
use ferro_http.Tests.Runs.{parsing}
use ferro_http.Http.Date.{http_date, civil_from_days, pad}

http_date-known : http_date 1234567890 ≡ codes "Fri, 13 Feb 2009 23:31:30 GMT"
unfolding http_date print_dec civil_from_days pad
http_date-known = refl

http_date-leap : http_date 1582934400 ≡ codes "Sat, 29 Feb 2020 00:00:00 GMT"
unfolding http_date print_dec civil_from_days pad
http_date-leap = refl

-- A handler that answers every request alike.
abbrev plain_service : Service
plain_service _ _ = text (status 200) (codes "ok")

abbrev injecting : Response
injecting = record {
  status = status 200;
  headers = (codes "X", codes "a\r\nSet-Cookie: b") ∷ (codes "Y", codes "c") ∷ [];
  body = codes "hello";
}

serialize-injecting :
    serialize injecting true ≡ codes "HTTP/1.1 200 OK\r\nY: c\r\nContent-Length: 5\r\n\r\n"
unfolding serialize serialize_head push_headers is_written has_forbidden_byte eq_ignore_ascii_case
    reason is_empty_body print_dec
serialize-injecting = refl

serialize_lines_example :
    (end : ℕ) × (find_subslice (serialize injecting true) crlf_crlf ≡ some end)
    × (split_crlf (take end (serialize injecting true))
        ≡ some (status_text (status 200) ∷ field_lines injecting))
    × (drop (end + 4) (serialize injecting true) ≡ body_on_wire injecting true)
serialize_lines_example = serialize_lines injecting true

abbrev two_requests : Bytes
two_requests = codes "GET / HTTP/1.1\r\nHost: h\r\n\r\nGET /b HT"

abbrev first_request : Request
first_request = record {
  method = get;
  target = codes "/";
  version = http11;
  headers = record { name = codes "Host"; value = codes "h" } ∷ [];
  body = [];
}

abbrev waiting : Connection
waiting = record {
  buf = two_requests;
  policy = default_policy;
  max_body = 100;
  peer = [];
  continue_sent = false;
}

parse-two_requests : parse_with two_requests 100 ≡ ok (done first_request 27)
unfolding parsing
parse-two_requests = refl

step-feed_example :
    step plain_service (feed (codes "TP") waiting) 0
    ≡ (feed (codes "TP") (step plain_service waiting 0).0, (step plain_service waiting 0).1)
step-feed_example =
    step-feed plain_service waiting 0 (codes "TP") first_request 27 parse-two_requests

abbrev expecting : Connection
expecting = record {
  buf = codes "POST / HTTP/1.1\r\nHost: h\r\nContent-Length: 2\r\nExpect: 100-continue\r\n\r\n";
  policy = default_policy;
  max_body = 100;
  peer = [];
  continue_sent = false;
}

parse-expecting : parse_with expecting.buf 100 ≡ ok need_more
unfolding parsing
parse-expecting = refl

expecting-not_done : (r : Request) (n : ℕ) → parse_with expecting.buf 100 ≢ ok (done r n)
expecting-not_done r n e = cc parse-expecting

step-expecting : (step plain_service expecting 0).1 ≡ write interim false
unfolding parsing step step_on step_partial
step-expecting = refl

expecting-NoRequest : NoRequest plain_service expecting (stepped 0 ∷ stepped 1 ∷ [])
unfolding parsing step step_on step_partial
expecting-NoRequest = (expecting-not_done, (expecting-not_done, tt))

interim_once_example : open_writes (run plain_service expecting (stepped 0 ∷ stepped 1 ∷ [])).1 ≤ 1
interim_once_example =
    interim_once plain_service expecting (stepped 0 ∷ stepped 1 ∷ []) expecting-NoRequest
