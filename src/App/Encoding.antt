-- ===== src/App/Encoding.antt =====
-- crates/std-server/src/app.rs: what a client receives of a response that `post_process` may compress.
use ferro_http.Http.Request.{Request}
use ferro_http.Base.{Option, none, some, if◌then◌else◌, Bytes, codes, bytes_eq}
use ferro_http.Compress.{gzip_encode}
use ferro_http.Compress.Container.{gunzip}
use ferro_http.Http.Range.{response_header}
use ferro_http.Http.Response.{Response, with_header}
use ferro_http.App.{App}

-- The content that a client has of a body with this Content-Encoding; it knows gzip only.
abbrev pub content : (Bytes → Option Bytes) → Bytes → Option Bytes → Option Bytes
content inflate body none = some body
content inflate body (some coding) =
    if bytes_eq coding (codes "gzip") then gunzip inflate body else none

abbrev pub received : (Bytes → Option Bytes) → Response → Option Bytes
received inflate r = content inflate r.body (response_header r (codes "content-encoding"))

-- The response with the two header lines that compression adds.
abbrev compressed : (Bytes → Bytes) → Response → Response
compressed deflate r =
    with_header
      (with_header (record r { body = gzip_encode deflate r.body }) (codes "Content-Encoding")
        (codes "gzip"))
      (codes "Vary") (codes "Accept-Encoding")
