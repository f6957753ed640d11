-- ===== src/Tests/Files.antt =====
-- Runs of the static file handler.
use ferro_http.Base.{
  ◌≡◌, refl, ◌↔◌, true, none, some, List, [], ◌∷◌, Bytes, codes, bytes_eq, split, utf8_valid,
  to_ascii_lowercase,
}
use ferro_http.Http.Status.{status}
use ferro_http.Http.Mime.{mime_for, mime_on, from_last_dot, find_override, builtin_mime, find_type}
use ferro_http.Http.Response.{Response}
use ferro_http.Asset.{Asset, AssetSource, is_loaded, load_embedded}
use ferro_http.StaticFiles.{
  hex_value, decode_byte, decode_from, percent_decode, sanitize_in, sanitize, join, ends_with_slash,
  candidate_paths, file_response, serve_first, serve_static, static_exists,
}
use ferro_http.StaticFiles.Escapes.{Encodes, percent_decode_iff}
use ferro_http.StaticFiles.Safety.{IsInside}
use ferro_http.StaticFiles.Serving.{serve_static-IsInside, static_exists-serve, is_served}

abbrev site : AssetSource
site = record {
  load = load_embedded ((codes "docs/index.html", codes "hi") ∷ (codes "a b.css", codes "x") ∷ []);
  exists = λ path. is_loaded (
      load_embedded ((codes "docs/index.html", codes "hi") ∷ (codes "a b.css", codes "x") ∷ [])
        path);
}

abbrev index_files : List Bytes
index_files = codes "index.html" ∷ []

abbrev docs_response : Response
docs_response = record {
  status = status 200;
  headers =
      (codes "Content-Type", codes "text/html; charset=utf-8")
      ∷ (codes "Accept-Ranges", codes "bytes")
      ∷ [];
  body = codes "hi";
}

serve-docs : serve_static (codes "/docs/%2e/") index_files site [] ≡ some docs_response
unfolding serve_static serve_first candidate_paths percent_decode decode_from decode_byte hex_value
    utf8_valid sanitize sanitize_in split bytes_eq join ends_with_slash load_embedded file_response
    mime_for mime_on from_last_dot find_override builtin_mime find_type to_ascii_lowercase
serve-docs = refl

serve-traversal : serve_static (codes "/docs/%2e%2E/x") index_files site [] ≡ none
unfolding serve_static serve_first candidate_paths percent_decode decode_from decode_byte hex_value
    utf8_valid sanitize sanitize_in split bytes_eq join ends_with_slash
serve-traversal = refl

serve_static-IsInside_example :
    (c : Bytes) × (a : Asset) × IsInside index_files c
    × (site.load c ≡ some a)
    × (docs_response ≡ file_response c a [])
serve_static-IsInside_example =
    serve_static-IsInside (codes "/docs/%2e/") index_files site [] docs_response serve-docs

static_exists-serve_example :
    static_exists (codes "/a%20b.css") index_files site
    ≡ is_served (serve_static (codes "/a%20b.css") index_files site [])
static_exists-serve_example =
    static_exists-serve (codes "/a%20b.css") index_files site [] (λ c. refl)

percent_decode_iff_example :
    (percent_decode (codes "/%C3%a9%2E") ≡ some (b'/' ∷ 0xc3 ∷ 0xa9 ∷ b'.' ∷ [])) ↔ (
      Encodes (codes "/%C3%a9%2E") (b'/' ∷ 0xc3 ∷ 0xa9 ∷ b'.' ∷ [])
      × (utf8_valid (b'/' ∷ 0xc3 ∷ 0xa9 ∷ b'.' ∷ []) ≡ true))
percent_decode_iff_example =
    percent_decode_iff (codes "/%C3%a9%2E") (b'/' ∷ 0xc3 ∷ 0xa9 ∷ b'.' ∷ [])
