-- ===== src/Tests/Apps.antt =====
-- Runs of the two profiles' handlers and of the gzip container.
use ferro_http.Http.Request.{
  http11, Request, find_header, header, path, absolute_form_path, split_scheme,
}
use ferro_http.Base.{
  ◌≤◌, ◌≡◌, refl, true, false, ◌&&◌, Option, none, some, [], ◌∷◌, arith, Bytes, codes, bytes_eq,
  is_empty, eq_ignore_ascii_case, starts_with, split_once, split, trim, to_ascii_lowercase,
}
use ferro_http.Asset.{AssetSource}
use ferro_http.Compress.{gzip_encode}
use ferro_http.Compress.Container.{checksum, checksum_from, shifted_by, gunzip, gunzip-gzip_encode}
use ferro_http.Conn.{RequestContext}
use ferro_http.Http.Method.{Method, get, put, options, method_eq}
use ferro_http.Http.Range.{response_header, find_field}
use ferro_http.Http.Response.{text, with_header, Response}
use ferro_http.Http.Status.{status}
use ferro_http.Router.{
  static, dispatch, dispatch_in, match_segments, zip_segments, split_path, method_matches,
  allowed_methods, allowed_in, contains_method,
}
use ferro_http.Security.{RateLimiter, new_limiter, find_entry}
use ferro_http.Embedded.StaticRouter
use ferro_http.Embedded.StaticRouter.{not_found, serve_file}
use ferro_http.App.{
  App, accepts_gzip, accepts_gzip_in, is_compressible, is_compressible_type, serve_asset,
  dispatch_app, is_server_wide, allow_header_value, with_implied, handle, v4,
}
use ferro_http.App.Logging.{ip_key, lines_for, handle-logged}
use ferro_http.App.Limit.{served, served_fresh}
use ferro_http.App.Allow.{dispatch_app_405}
use ferro_http.App.Profiles.{embedded_part, Refines, dispatch_app-refines}

checksum-known : checksum (codes "123456789") ≡ 0xcbf43926
unfolding checksum checksum_from shifted_by
checksum-known = refl

-- Stored blocks in the place of DEFLATE: a byte before the content.
abbrev marked : Bytes → Bytes
marked xs = 0 ∷ xs

abbrev unmarked : Bytes → Option Bytes
unmarked [] = none
unmarked (b ∷ xs) = some xs

gunzip-gzip_encode_example : gunzip unmarked (gzip_encode marked (codes "hi")) ≡ some (codes "hi")
gunzip-gzip_encode_example = gunzip-gzip_encode marked unmarked (codes "hi") refl

abbrev no_assets : AssetSource
no_assets = record { load = λ path. none; exists = λ path. false }

abbrev sample_limiter : RateLimiter
sample_limiter =
    new_limiter (record { enabled = true; requests = 2; window_secs = 60; ban_secs = 300 })

abbrev sample_app : App
sample_app = record {
  router = record {
    routes =
        record {
          method = get;
          segments = static (codes "a") ∷ [];
          handler = λ request params. not_found;
        }
        ∷ [];
  };
  assets = no_assets;
  index_files = codes "index.html" ∷ [];
  mime_overrides = [];
  rate_limiter = some sample_limiter;
  access_log = true;
  compression = record { gzip = true; min_bytes = 2 };
}

abbrev sample_request : Method → Request
sample_request m = record {
  method = m;
  target = codes "/a";
  version = http11;
  headers = record { name = codes "Accept-Encoding"; value = codes "br, gzip;q=1" } ∷ [];
  body = [];
}

abbrev sample_context : RequestContext
sample_context = record { peer = 1 ∷ []; now_unix_secs = 1000 }

no_entry : find_entry (1 ∷ []) sample_limiter.entries ≡ none
unfolding find_entry
no_entry = refl

served_fresh_example :
    served none
      (1 ∷ [])
      sample_app
      ((sample_request get, sample_context) ∷ (sample_request put, sample_context) ∷ [])
    ≤ 2
served_fresh_example =
    served_fresh none sample_app sample_limiter 60 (sample_request get) sample_context
      ((sample_request put, sample_context) ∷ []) refl refl (omega arith) (omega arith)
      (omega arith) (omega arith) (omega arith) no_entry (omega arith)
      (omega arith, omega arith, tt)

no_route : dispatch sample_app.router (sample_request put) ≡ none
unfolding dispatch dispatch_in match_segments zip_segments split_path split bytes_eq method_matches
    method_eq path absolute_form_path split_scheme split_once starts_with
no_route = refl

one_method : is_empty (allowed_methods sample_app.router (path (sample_request put))) ≡ false
unfolding allowed_methods allowed_in contains_method match_segments zip_segments split_path split
    bytes_eq method_eq path absolute_form_path split_scheme split_once starts_with
one_method = refl

put_not_file : serve_asset sample_app (sample_request put) ≡ none
unfolding method_eq serve_asset
put_not_file = refl

put_not_options : method_eq put options ≡ false
unfolding method_eq
put_not_options = refl

dispatch_app_405_example :
    (dispatch_app sample_app (sample_request put)
      ≡ with_header
          (text (status 405) (codes "405 Method Not Allowed"))
          (codes "Allow")
          (allow_header_value (allowed_methods sample_app.router (path (sample_request put)))))
    × (contains_method put
          (with_implied (allowed_methods sample_app.router (path (sample_request put))))
        ≡ false)
dispatch_app_405_example =
    dispatch_app_405 sample_app (sample_request put) no_route put_not_file one_method
      put_not_options

not_server_wide : is_server_wide (sample_request put) ≡ false
unfolding method_eq
not_server_wide = refl

dispatch_app-refines_example :
    Refines sample_app
      (sample_request put)
      (StaticRouter.handle (embedded_part sample_app) (sample_request put) sample_context)
      (dispatch_app sample_app (sample_request put))
dispatch_app-refines_example =
    dispatch_app-refines sample_app (sample_request put) sample_context not_server_wide

abbrev styles : Response
styles = record {
  status = status 200;
  headers = (codes "Content-Type", codes "text/css") ∷ [];
  body = codes "abc";
}

-- The client accepts gzip and the type compresses.
styles_compressed : (accepts_gzip (sample_request get) && is_compressible styles) ≡ true
unfolding accepts_gzip accepts_gzip_in header find_header eq_ignore_ascii_case to_ascii_lowercase
    split trim is_compressible is_compressible_type response_header find_field starts_with
styles_compressed = refl

abbrev local_context : RequestContext
local_context = record { peer = ip_key (v4 (127 ∷ 0 ∷ 0 ∷ 1 ∷ [])); now_unix_secs = 1000 }

handle-logged_example :
    (handle (some marked) sample_app (sample_request get) local_context).logged
    ≡ lines_for sample_app
        (v4 (127 ∷ 0 ∷ 0 ∷ 1 ∷ []))
        (sample_request get)
        (handle (some marked) sample_app (sample_request get) local_context).response.status
handle-logged_example =
    handle-logged (some marked) sample_app (sample_request get) local_context (127 ∷ 0 ∷ 0 ∷ 1 ∷ [])
      refl
