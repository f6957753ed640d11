-- ===== src/Http/Request/Parse/Fields.antt =====
-- What every request that is parsed satisfies, whatever bytes the client sent.
use ferro_http.Http.Request.{Request, ok, header_is}
use ferro_http.Base.{
  ℕ, ◌+◌, ◌≤◌, ◌≡◌, false, some, List, [], ◌∷◌, arith, length, take, Bytes, codes, filter,
}
use ferro_http.Http.Request.Scan.{find_subslice, crlf_crlf, split_crlf, has_bare_cr}
use ferro_http.Http.Request.Fields.{Framing}
use ferro_http.Http.Request.Parse.{done, parse_with}
use ferro_http.Http.Request.Fields.{max_headers}
use ferro_http.Http.Request.Fields.Laws.{
  IsField, parse_headers-IsField, HostsOk, validate_host-HostsOk, FramedBy, body_framing-FramedBy,
}
use ferro_http.Http.Request.Line.Laws.{IsRequestLine, parse_request_line-IsRequestLine}
use ferro_http.Http.Request.Scan.BareCr.{All, has_cr, has_bare_cr-append, split_crlf-All}
use ferro_http.Http.Request.Scan.Found.{find_subslice-take}
use ferro_http.Http.Request.Parse.Inside.{parse_head-HeadParts}
use ferro_http.Http.Request.Parse.Stable.{parse_with-Parses}
use ferro_http.Http.Request.Parse.Bounds.{parse_body-finish}

-- At most 64 fields, each with a token for a name and no CR in its value; one valid Host field, or
-- none in HTTP/1.0; a framing by Content-Length or by `chunked`, never by both.
pub record IsWellFormed (r : Request) : Type 0 where
  pub few : length r.headers ≤ max_headers
  pub fields : All IsField r.headers
  pub hosts : HostsOk (filter (header_is (codes "host")) r.headers) r.version
  pub framing : Framing
  pub framed :
      FramedBy
        (filter (header_is (codes "transfer-encoding")) r.headers)
        (filter (header_is (codes "content-length")) r.headers)
        framing

head_lines_no_cr :
    (buf : Bytes) (end : ℕ)
    → find_subslice buf crlf_crlf ≡ some end
    → has_bare_cr (take (end + 4) buf) ≡ false
    → (ls : List Bytes) × (split_crlf (take end buf) ≡ some ls)
      × All (λ line. has_cr line ≡ false) ls
head_lines_no_cr buf end found clean = split_crlf-All (take end buf) (
    has_bare_cr-append (take end buf) (b'\n' ∷ b'\r' ∷ b'\n' ∷ [])
      (rw (find_subslice-take buf crlf_crlf found) at clean))

-- Every request that the parser accepts is well formed.
pub parse_with-IsWellFormed :
    (buf : Bytes) (max_body : ℕ) (r : Request) (n : ℕ)
    → parse_with buf max_body ≡ ok (done r n)
    → IsWellFormed r
parse_with-IsWellFormed buf max_body r n e =
    let p = parse_with-Parses buf max_body e in
    let parts = parse_head-HeadParts buf p.end p.head_ok in
    let (ls, cut, all_clean) = head_lines_no_cr buf p.end p.found parts.no_bare_cr in
    let same : ls ≡ parts.line ∷ parts.lines = cc (cut, parts.lines_are) in
    let clean = rw same at all_clean in
    let (fields, few) =
      parse_headers-IsField parts.lines [] clean.1 tt (omega arith) parts.headers in
    rw (parse_body-finish buf max_body (p.end + 4) p.head p.head.framing p.body_ok) (record {
      few = few;
      fields = fields;
      hosts = validate_host-HostsOk p.head.headers p.head.version parts.host;
      framing = p.head.framing;
      framed = body_framing-FramedBy p.head.headers parts.framing;
    })

-- The buffer of a parsed request begins with its request line: the method's token, a space, the
-- target as the client sent it (not empty, at most 8192 bytes, with no space), a space, and a version
-- token that stands for the request's version.
pub parse_with-IsRequestLine :
    (buf : Bytes) (max_body : ℕ) (r : Request) (n : ℕ)
    → parse_with buf max_body ≡ ok (done r n)
    → (line : Bytes) × (end : ℕ) × (lines : List Bytes) × (find_subslice buf crlf_crlf ≡ some end)
      × (split_crlf (take end buf) ≡ some (line ∷ lines))
      × IsRequestLine line r.method r.target r.version
parse_with-IsRequestLine buf max_body r n e =
    let p = parse_with-Parses buf max_body e in
    let parts = parse_head-HeadParts buf p.end p.head_ok in
    (
      parts.line,
      p.end,
      parts.lines,
      p.found,
      parts.lines_are,
      rw (parse_body-finish buf max_body (p.end + 4) p.head p.head.framing p.body_ok)
          (parse_request_line-IsRequestLine parts.line parts.request_line),
    )
