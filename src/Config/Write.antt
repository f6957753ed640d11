-- ===== src/Config/Write.antt =====
-- crates/core/src/config.rs: the configuration as JSON.
use ferro_http.Base.{
  ℕ, ◌+◌, ◌/◌, ◌%◌, Bool, true, false, List, [], ◌∷◌, ◌++◌, map, ltb, ◌==◌, if◌then◌else◌, Bytes,
  codes, print_dec,
}
use ferro_http.Security.{RateLimitConfig}
use ferro_http.Config.{
  ServerConfig, StaticConfig, CompressionConfig, SecurityConfig, LoggingConfig, TlsConfig,
  AdminConfig, Config,
}

-- `{:04x}` of a byte below 0x20
abbrev pub hex2 : ℕ → Bytes
hex2 c = codes "00" ++ (c / 16 + 48) ∷ (if ltb (c % 16) 10 then c % 16 + 48 else c % 16 + 87) ∷ []

-- A character of several bytes has none of these in it, so bytes are escaped one by one.
unfoldable pub escape_byte : ℕ → Bytes
escape_byte c =
    if c == b'"'
    then codes "\\\""
    else if c == b'\\'
    then codes "\\\\"
    else if c == b'\n'
    then codes "\\n"
    else if c == b'\r'
    then codes "\\r"
    else if c == b'\t'
    then codes "\\t"
    else if ltb c 0x20
    then codes "\\u" ++ hex2 c
    else c ∷ []

unfoldable pub escape_json : Bytes → Bytes
escape_json [] = []
escape_json (c ∷ cs) = escape_byte c ++ escape_json cs

-- A string between quotes.
abbrev pub quoted : Bytes → Bytes
quoted s = b'"' ∷ escape_json s ++ b'"' ∷ []

unfoldable pub json_items : List Bytes → Bytes
json_items [] = []
json_items (s ∷ ss) = codes ", " ++ quoted s ++ json_items ss

unfoldable pub json_string_array : List Bytes → Bytes
json_string_array [] = codes "[]"
json_string_array (s ∷ ss) = codes "[" ++ quoted s ++ json_items ss ++ codes "]"

-- One line of an object, `{indent}"{key}": {value}`, without what ends it.
abbrev pub line : Bytes → Bytes × Bytes → Bytes
line indent (key, value) = indent ++ b'"' ∷ key ++ codes "\": " ++ value

-- The lines behind the first, each with the comma that ends the line before it.
unfoldable pub more_lines : Bytes → List (Bytes × Bytes) → Bytes
more_lines indent [] = []
more_lines indent (e ∷ es) = codes ",\n" ++ line indent e ++ more_lines indent es

-- An object with a line for each member, at least one, and the closing brace on a line of its own.
unfoldable pub block : Bytes → Bytes → Bytes × Bytes → List (Bytes × Bytes) → Bytes
block outer indent e es =
    codes "{\n" ++ line indent e ++ more_lines indent es ++ codes "\n" ++ outer ++ codes "}"

abbrev pub mime_entry : Bytes × Bytes → Bytes × Bytes
mime_entry (k, v) = (escape_json k, quoted v)

unfoldable pub json_string_object : List (Bytes × Bytes) → Bytes
json_string_object [] = codes "{}"
json_string_object (e ∷ es) = block (codes "  ") (codes "    ") (mime_entry e) (map mime_entry es)

-- `{}` of a `bool`
abbrev pub print_bool : Bool → Bytes
print_bool true = codes "true"
print_bool false = codes "false"

-- An object one level down.
abbrev pub part : Bytes × Bytes → List (Bytes × Bytes) → Bytes
part e es = block (codes "  ") (codes "    ") e es

unfoldable pub server_text : ServerConfig → Bytes
server_text c =
    part (codes "bind", quoted c.bind)
      ((codes "port", print_dec c.port)
        ∷ (codes "worker_threads", print_dec c.worker_threads)
        ∷ (codes "max_connections", print_dec c.max_connections)
        ∷ (codes "keep_alive_secs", print_dec c.keep_alive_secs)
        ∷ (codes "read_timeout_secs", print_dec c.read_timeout_secs)
        ∷ (codes "request_max_bytes", print_dec c.request_max_bytes)
        ∷ [])

unfoldable pub static_text : StaticConfig → Bytes
static_text c =
    part (codes "root", quoted c.root)
      ((codes "index_files", json_string_array c.index_files)
        ∷ (codes "follow_symlinks", print_bool c.follow_symlinks)
        ∷ (codes "directory_listing", print_bool c.directory_listing)
        ∷ [])

unfoldable pub compression_text : CompressionConfig → Bytes
compression_text c =
    part (codes "gzip", print_bool c.gzip) ((codes "min_bytes", print_dec c.min_bytes) ∷ [])

unfoldable pub rate_limit_text : RateLimitConfig → Bytes
rate_limit_text c =
    block (codes "    ") (codes "      ") (codes "enabled", print_bool c.enabled)
      ((codes "requests", print_dec c.requests)
        ∷ (codes "window_secs", print_dec c.window_secs)
        ∷ (codes "ban_secs", print_dec c.ban_secs)
        ∷ [])

unfoldable pub security_text : SecurityConfig → Bytes
security_text c =
    part (codes "enable_security_headers", print_bool c.enable_security_headers)
      ((codes "rate_limit", rate_limit_text c.rate_limit)
        ∷ (codes "blocked_patterns", json_string_array c.blocked_patterns)
        ∷ [])

unfoldable pub tls_text : TlsConfig → Bytes
tls_text c =
    part (codes "enabled", print_bool c.enabled)
      ((codes "cert_path", quoted c.cert_path) ∷ (codes "key_path", quoted c.key_path) ∷ [])

unfoldable pub admin_text : AdminConfig → Bytes
admin_text c =
    part (codes "username", quoted c.username)
      ((codes "password_sha256", quoted c.password_sha256) ∷ [])

unfoldable pub logging_text : LoggingConfig → Bytes
logging_text c =
    part (codes "level", quoted c.level) ((codes "access_log", print_bool c.access_log) ∷ [])

unfoldable pub to_json_string : Config → Bytes
to_json_string c =
    block [] (codes "  ") (codes "server", server_text c.server)
      ((codes "static", static_text c.static_files)
        ∷ (codes "compression", compression_text c.compression)
        ∷ (codes "security", security_text c.security)
        ∷ (codes "tls", tls_text c.tls)
        ∷ (codes "admin", admin_text c.admin)
        ∷ (codes "logging", logging_text c.logging)
        ∷ (codes "mime_overrides", json_string_object c.mime_overrides)
        ∷ [])
    ++ codes "\n"
