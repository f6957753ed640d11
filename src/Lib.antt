-- ===== src/Lib.antt =====
-- ferro, an HTTP/1.1 server: the parts of its core that decide what a client's bytes mean.
--
-- A connection collects bytes in a buffer (Conn, crates/core/src/conn.rs). Each step parses one
-- request from the front of the buffer (Http.Request, crates/core/src/http/request.rs), calls
-- the profile's service, and serializes its response (Http.Response, http/response.rs) with a
-- date (Http.Date, http/date.rs) and a status (Http.Status, http/status.rs). The service is a
-- parameter, a function of the request and the context (crates/core/src/service.rs). A profile's
-- service is made of the router (Router, router.rs), the rate limiter (Security, security.rs) and
-- the static files (StaticFiles, handler/static_files.rs) over a source of assets (Asset, asset.rs).
--
-- Files:
--   Base and its children: bytes as lists of native numbers, strings as their UTF-8 bytes, the
--     parts of Rust's standard library the code calls (eq_ignore_ascii_case, split_once, trim,
--     from_utf8, parse, decimal printing), and lemmas on them.
--   Http/Method, Http/Status, Http/Date, Http/Response: the files of the same name; Response.Wire
--     reads a serialized response back.
--   Http/Request: the types, Request::header, path and keep_alive, and the result monad.
--     Scan has find_subslice, split_crlf, trim_ows and the token bytes; Line the request line;
--     Fields the header lines, validate_host and body_framing; Chunk decode_chunked; Parse
--     parse_with and expect_action. Their children hold the proofs, each named for its subject.
--   Conn: Connection::step with its arms; Conn.Pipeline and Conn.Interim hold its theorems.
--   Security: the rate limiter, crates/core/src/security.rs. Entries has the lemmas on its map,
--     Window those on one entry; Limit, Capacity and Ban the theorems.
--   Router: crates/core/src/router.rs, with Matching for patterns and Dispatch for requests.
--   Http/Date/Parse: parse_http_date, http/date.rs. Http/Range and Http/Conditional: evaluate,
--     http/conditional.rs, with Range.Bounds and Conditional.Precedence for its theorems.
--   Asset, Http/Mime, StaticFiles: crates/core/src/asset.rs, http/mime.rs and
--     handler/static_files.rs. StaticFiles.Safety and Serving say what is served, Escapes is about
--     percent_decode.
--   Query: crates/core/src/handler/query.rs. Stats: crates/std-server/src/webui/stats.rs.
--   Embedded.Transport: crates/embedded/src/lib.rs, one poll of a socket of smoltcp, with Loop,
--     Order and Stall for its theorems. Embedded.StaticRouter: crates/embedded/src/app.rs.
--   App: crates/std-server/src/app.rs, with Limit, Allow, Profiles, Encoding and Logging for its
--     theorems; Logging also has ip_key of transport_mio.rs.
--     Compress: crates/core/src/compress.rs; Container has a reader of gzip from RFC 1952.
--   Json: crates/core/src/json.rs, the values and the parser's state; Text has strings and escapes,
--     Parse numbers, arrays, objects and documents. Bounds, Text.Ends, Parse.Scalars and Parse.Total
--     are about its end, Parse.Depth about the nesting of its values.
--   Config: crates/core/src/config.rs, the settings, their defaults and the validation; Read and
--     Write are from_json_str and to_json_string. Validity is about what is loaded; Escapes, Strings,
--     Values, Arrays, Members, Blocks, Fields, Parts and RoundTrip lead from one escaped byte to the file.
--   Auth: crates/std-server/src/webui/sha256.rs, base64 and the comparison of digests; Sha256 is the
--     hash, Basic is basic_auth_ok with its theorem.
--   Tests: runs on inputs of the source's tests, and the theorems at such inputs.
--
-- A fallible operation returns a Result: ok, err with the source's ParseError, panic where a
-- slice of the source panics, and out_of_fuel. usize is 64 bits wide and the sums of offsets
-- wrap, as in a release build. The loops over the bytes of a chunked body run on fuel, the
-- length of the buffer plus one; every turn consumes a byte, so it is enough. The loop that cuts the lines of a head runs on the length of
-- the block plus one, and its end on less fuel is none, which the parser passes on as out_of_fuel. The loop of a
-- poll over the buffered requests runs on twice the length of the buffer plus two: each turn takes
-- bytes of the buffer or sends the interim response, once. The loops of the JSON parser run on the
-- bytes left plus one, and its recursion on 65 levels, one more than the nesting it allows. Its parser
-- is the position and the bytes from there on; f64 and its conversions are a parameter, Json.Float,
-- and Config.Fields.IsExact says what f64 keeps of the integers to 2^53. SHA-256 pads on fuel 64 and
-- takes its blocks on the number of bytes. The rate limiter's map is an association list; its sums of
-- u64 wrap too.
--
-- Not modelled: sockets, TLS, files, threads and the start-up of the binaries, which are input and
-- output; the third-party crates; the allocation of memory; the arithmetic of f64; the poll of the
-- network interface and the mio event loop; the text of an address in the access log; the endpoints and the pages of the admin
-- panel; and the time that the comparison of digests takes.
mod Base
pub mod Http
pub mod Conn
pub mod Security
pub mod Router
pub mod Stats
pub mod Query
pub mod Asset
pub mod StaticFiles
pub mod Embedded
pub mod Json
pub mod Config
pub mod Auth
pub mod Compress
pub mod App
mod Tests
