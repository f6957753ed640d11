-- ===== src/Tests/Runs.antt =====
-- One name for all that a run of the request parser computes with.
use ferro_http.Base.{
  bytes_eq, eq_ignore_ascii_case, starts_with, strip_prefix, split_once, utf8_valid, trim,
  parse_uint, wrapping_add,
}
use ferro_http.Http.Method.{from_bytes}
use ferro_http.Http.Request.Chunk.{
  hex_digit, parse_hex_from, parse_hex, skip_trailers, take_chunk, decode_chunks, decode_chunked,
}
use ferro_http.Http.Request.Fields.{
  parse_header_line, parse_headers, is_valid_host_value, validate_host, framing_of, body_framing,
}
use ferro_http.Http.Request.Line.{
  ascii_to_u32_saturating, parse_version, parse_method, parse_request_line,
}
use ferro_http.Http.Request.Parse.{
  parse_head_lines, parse_head, parse_body, parse_with, expect_in, expect_action,
}
use ferro_http.Http.Request.Scan.{
  trim_ows, window_position, find_subslice, split_crlf_from, split_crlf, has_bare_cr, is_token_byte,
}

unfoldable pub parsing : Unit {0}
unfolding bytes_eq starts_with strip_prefix split_once utf8_valid eq_ignore_ascii_case trim
    parse_uint from_bytes hex_digit parse_hex_from parse_hex wrapping_add skip_trailers take_chunk
    decode_chunks decode_chunked parse_header_line parse_headers is_valid_host_value validate_host
    framing_of body_framing ascii_to_u32_saturating parse_version parse_method parse_request_line
    parse_head_lines parse_head parse_body parse_with expect_in expect_action trim_ows
    window_position find_subslice split_crlf_from split_crlf has_bare_cr is_token_byte
parsing = tt
