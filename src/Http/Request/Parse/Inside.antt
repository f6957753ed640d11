-- ===== src/Http/Request/Parse/Inside.antt =====
-- What stands behind a head that was accepted: each of its parts was.
use ferro_http.Http.Request.{
  ok, guard, head_too_large, bare_cr, >>=-eq-ok, guard-eq-ok, ok-injective,
}
use ferro_http.Base.{
  ℕ, ◌+◌, ◌≤◌, ◌≡◌, ap, false, not, Option, none, some, List, [], ◌∷◌, arith, leb, leb→le, take,
  Bytes,
}
use ferro_http.Http.Request.Scan.{split_crlf, has_bare_cr}
use ferro_http.Http.Request.Line.{parse_request_line}
use ferro_http.Http.Request.Fields.{parse_headers, validate_host, body_framing}
use ferro_http.Http.Request.Parse.{Head, parse_head_lines, lines_of, parse_head, max_head_bytes}

pub record HeadParts (buf : Bytes) (end : ℕ) (h : Head) : Type 0 where
  pub line : Bytes
  pub lines : List Bytes
  pub small : end ≤ max_head_bytes
  pub no_bare_cr : has_bare_cr (take (end + 4) buf) ≡ false
  pub lines_are : split_crlf (take end buf) ≡ some (line ∷ lines)
  pub request_line : parse_request_line line ≡ ok (h.method, h.target, h.version)
  pub headers : parse_headers lines [] ≡ ok h.headers
  pub host : validate_host h.headers h.version ≡ ok tt
  pub framing : body_framing h.headers ≡ ok h.framing

record LineParts (line : Bytes) (lines : List Bytes) (h : Head) : Type 0 where
  request_line : parse_request_line line ≡ ok (h.method, h.target, h.version)
  headers : parse_headers lines [] ≡ ok h.headers
  host : validate_host h.headers h.version ≡ ok tt
  framing : body_framing h.headers ≡ ok h.framing

parse_head_lines-LineParts :
    (line : Bytes) (lines : List Bytes) {h : Head}
    → parse_head_lines (line ∷ lines) ≡ ok h
    → LineParts line lines h
unfolding parse_head_lines
parse_head_lines-LineParts line lines {h} e =
    let ((m, t, v), e1, e2) = >>=-eq-ok (parse_request_line line) _ e in
    let (hs, e3, e4) = >>=-eq-ok (parse_headers lines []) _ e2 in
    let (u, e5, e6) = >>=-eq-ok (validate_host hs v) _ e4 in
    let (f, e7, e8) = >>=-eq-ok (body_framing hs) _ e6 in
    rw (← ok-injective e8) (record { request_line = e1; headers = e3; host = e5; framing = e7 })

lines_of-eq-ok :
    (cut : Option (List Bytes)) {ls : List Bytes} → lines_of cut ≡ ok ls → cut ≡ some ls
lines_of-eq-ok none e = cc
lines_of-eq-ok (some lines) e = ap some (ok-injective e)

pub parse_head-HeadParts :
    (buf : Bytes) (end : ℕ) {h : Head} → parse_head buf end ≡ ok h → HeadParts buf end h
unfolding parse_head
parse_head-HeadParts buf end {h} e =
    let (u, small, e1) = >>=-eq-ok (guard (leb end max_head_bytes) head_too_large) _ e in
    let (u1, clean, e2) = >>=-eq-ok (guard (not (has_bare_cr (take (end + 4) buf))) bare_cr) _ e1 in
    let (ls, cut, e3) = >>=-eq-ok (lines_of (split_crlf (take end buf))) _ e2 in
    in_lines ls (lines_of-eq-ok (split_crlf (take end buf)) cut)
      (leb→le _ _ (guard-eq-ok (leb end max_head_bytes) head_too_large small))
      (ground (arith, guard-eq-ok (not (has_bare_cr (take (end + 4) buf))) bare_cr clean)) e3
  where
    in_lines :
        (ls : List Bytes)
        → split_crlf (take end buf) ≡ some ls
        → end ≤ max_head_bytes
        → has_bare_cr (take (end + 4) buf) ≡ false
        → parse_head_lines ls ≡ ok h
        → HeadParts buf end h
    in_lines [] cut small clean e = unfold parse_head_lines in cc
    in_lines (line ∷ lines) cut small clean e =
        let p = parse_head_lines-LineParts line lines e in
        record {
          line = line;
          lines = lines;
          small = small;
          no_bare_cr = clean;
          lines_are = cut;
          request_line = p.request_line;
          headers = p.headers;
          host = p.host;
          framing = p.framing;
        }
