-- ===== src/Http/Status.antt =====
-- crates/core/src/http/status.rs: status codes and reason phrases.
use ferro_http.Base.{ℕ, Bool, ◌||◌, [], ◌==◌, if◌then◌else◌, Bytes, codes, within}

-- `StatusCode(u16)`
pub record StatusCode : Type 0 where
  pub code : ℕ

abbrev pub status : ℕ → StatusCode
status c = record { code = c }

unfoldable pub reason : StatusCode → Bytes
reason s =
    if s.code == 100
    then codes "Continue"
    else if s.code == 200
    then codes "OK"
    else if s.code == 201
    then codes "Created"
    else if s.code == 204
    then codes "No Content"
    else if s.code == 206
    then codes "Partial Content"
    else if s.code == 304
    then codes "Not Modified"
    else if s.code == 400
    then codes "Bad Request"
    else if s.code == 401
    then codes "Unauthorized"
    else if s.code == 403
    then codes "Forbidden"
    else if s.code == 404
    then codes "Not Found"
    else if s.code == 405
    then codes "Method Not Allowed"
    else if s.code == 413
    then codes "Content Too Large"
    else if s.code == 414
    then codes "URI Too Long"
    else if s.code == 415
    then codes "Unsupported Media Type"
    else if s.code == 416
    then codes "Range Not Satisfiable"
    else if s.code == 417
    then codes "Expectation Failed"
    else if s.code == 418
    then codes "I'm a teapot"
    else if s.code == 429
    then codes "Too Many Requests"
    else if s.code == 431
    then codes "Request Header Fields Too Large"
    else if s.code == 500
    then codes "Internal Server Error"
    else if s.code == 501
    then codes "Not Implemented"
    else if s.code == 505
    then codes "HTTP Version Not Supported"
    else []

unfoldable pub is_empty_body : StatusCode → Bool
is_empty_body s = within 100 199 s.code || s.code == 204 || s.code == 304
