-- ===== src/Http/Mime.antt =====
-- crates/core/src/http/mime.rs: the media type of a file name.
use ferro_http.Base.{
  Option, none, some, List, [], ◌∷◌, map, ◌==◌, if◌then◌else◌, Bytes, codes, bytes_eq,
  eq_ignore_ascii_case, to_ascii_lowercase,
}

-- The part of a name from its last dot; empty where it has none.
unfoldable pub from_last_dot : Bytes → Bytes
from_last_dot [] = []
from_last_dot (c ∷ cs) = elim (from_last_dot cs) [
  | [] ↦ if c == b'.' then c ∷ cs else []
  | x ∷ xs ↦ x ∷ xs
]

abbrev pub builtin_types : List (Bytes × Bytes)
builtin_types =
    (codes "html", codes "text/html; charset=utf-8")
    ∷ (codes "htm", codes "text/html; charset=utf-8")
    ∷ (codes "css", codes "text/css; charset=utf-8")
    ∷ (codes "js", codes "text/javascript; charset=utf-8")
    ∷ (codes "mjs", codes "text/javascript; charset=utf-8")
    ∷ (codes "json", codes "application/json")
    ∷ (codes "txt", codes "text/plain; charset=utf-8")
    ∷ (codes "csv", codes "text/csv; charset=utf-8")
    ∷ (codes "xml", codes "application/xml")
    ∷ (codes "svg", codes "image/svg+xml")
    ∷ (codes "png", codes "image/png")
    ∷ (codes "jpg", codes "image/jpeg")
    ∷ (codes "jpeg", codes "image/jpeg")
    ∷ (codes "gif", codes "image/gif")
    ∷ (codes "webp", codes "image/webp")
    ∷ (codes "ico", codes "image/x-icon")
    ∷ (codes "woff", codes "font/woff")
    ∷ (codes "woff2", codes "font/woff2")
    ∷ (codes "ttf", codes "font/ttf")
    ∷ (codes "pdf", codes "application/pdf")
    ∷ (codes "zip", codes "application/zip")
    ∷ (codes "gz", codes "application/gzip")
    ∷ (codes "wasm", codes "application/wasm")
    ∷ (codes "mp4", codes "video/mp4")
    ∷ (codes "mp3", codes "audio/mpeg")
    ∷ []

-- The arms of `builtin_mime` in order, on the extension in lower case.
unfoldable pub find_type : Bytes → List (Bytes × Bytes) → Bytes
find_type ext [] = codes "application/octet-stream"
find_type ext ((key, type) ∷ types) = if bytes_eq key ext then type else find_type ext types

unfoldable pub builtin_mime : Bytes → Bytes
builtin_mime ext = find_type (map to_ascii_lowercase ext) builtin_types

-- The loop over the overrides.
unfoldable pub find_override : Bytes → List (Bytes × Bytes) → Option Bytes
find_override dotted [] = none
find_override dotted ((ext, type) ∷ overrides) =
    if eq_ignore_ascii_case ext dotted then some type else find_override dotted overrides

-- `mime_for`, on what its name has from the last dot on.
unfoldable pub mime_on : Bytes → List (Bytes × Bytes) → Bytes
mime_on [] overrides = builtin_mime []
mime_on (dot ∷ ext) overrides = elim (find_override (dot ∷ ext) overrides) [
  | some type ↦ type
  | none ↦ builtin_mime ext
]

unfoldable pub mime_for : Bytes → List (Bytes × Bytes) → Bytes
mime_for name overrides = mime_on (from_last_dot name) overrides
