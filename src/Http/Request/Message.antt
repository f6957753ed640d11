-- ===== src/Http/Request/Message.antt =====
-- crates/core/src/http/request.rs and http/status.rs: `Display` of a parse error and of a status.
use ferro_http.Http.Request.{
  ParseError, head_too_large, too_many_headers, malformed_request_line, unknown_method,
  target_too_long, unsupported_version, bare_cr, bad_host, malformed_header, bad_content_length,
  conflicting_framing, unsupported_transfer_encoding, malformed_chunk, body_too_large,
}
use ferro_http.Base.{◌++◌, Bytes, codes, print_dec}
use ferro_http.Http.Status.{StatusCode, reason}

unfoldable pub error_message : ParseError → Bytes
error_message head_too_large = codes "request head too large"
error_message too_many_headers = codes "too many headers"
error_message malformed_request_line = codes "malformed request line"
error_message unknown_method = codes "unknown method"
error_message target_too_long = codes "request target too long"
error_message unsupported_version = codes "unsupported HTTP version"
error_message bare_cr = codes "bare CR in request head"
error_message bad_host = codes "missing or invalid Host header"
error_message malformed_header = codes "malformed header"
error_message bad_content_length = codes "invalid Content-Length"
error_message conflicting_framing = codes "conflicting Content-Length and Transfer-Encoding"
error_message unsupported_transfer_encoding = codes "unsupported Transfer-Encoding"
error_message malformed_chunk = codes "malformed chunked body"
error_message body_too_large = codes "request body too large"

unfoldable pub status_message : StatusCode → Bytes
status_message s = print_dec s.code ++ (codes " " ++ reason s)
