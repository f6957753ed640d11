-- ===== src/Config.antt =====
-- crates/core/src/config.rs: the configuration, its defaults, its errors and its validation.
pub mod Read
pub mod Write
pub mod Strings
pub mod Escapes
pub mod Values
pub mod Arrays
pub mod Blocks
pub mod Members
pub mod Fields
pub mod Parts
pub mod RoundTrip
pub mod Validity
pub mod Gives
use ferro_http.Base.{
  ℕ, zero, suc, ◌+◌, ◌-◌, ◌*◌, ◌/◌, ◌%◌, ◌^◌, ◌≤◌, ◌<◌, min, ◌≡◌, refl, sym, ap, ◌∙◌, ◌≢◌, ◌↔◌, ◌⊎◌,
  inl, inr, Bool, true, false, not, ◌&&◌, ◌||◌, Option, none, some, List, [], ◌∷◌, ◌++◌, map,
  append_assoc, append-nil, arith, ltb, leb, ◌==◌, if◌then◌else◌, ltb→lt, lt→ltb, leb→le, ==_iff,
  Bool-cases, Option-cases, length, get_elem?, get_or, replicate, take, drop, length-append,
  length-take, length-drop, take-append-drop, take-append, drop-append, Bytes, codes, within,
  bytes_eq, bytes_eq_iff, is_empty, all, any, filter, position, find, u64_max, u32_max,
  is_ascii_digit, is_ascii_alphabetic, is_ascii_alphanumeric, eq_ignore_ascii_case, starts_with,
  strip_prefix, split_once, split, utf8_valid, trim, parse_digits, parse_uint, dec_digits,
  print_dec, to_ascii_lowercase, wrapping_add, print_hex, cons_head, hex_digits,
}
use ferro_http.Json.{JsonError, show_json_error}
use ferro_http.Security.{RateLimitConfig, default_rate_limit}

pub record ServerConfig : Type 0 where
  pub bind : Bytes
  pub port : ℕ
  pub worker_threads : ℕ
  pub max_connections : ℕ
  pub keep_alive_secs : ℕ
  pub read_timeout_secs : ℕ
  pub request_max_bytes : ℕ

abbrev pub default_server : ServerConfig
default_server = record {
  bind = codes "0.0.0.0";
  port = 8080;
  worker_threads = 0;
  max_connections = 1024;
  keep_alive_secs = 15;
  read_timeout_secs = 30;
  request_max_bytes = 1024 * 1024;
}

pub record StaticConfig : Type 0 where
  pub root : Bytes
  pub index_files : List Bytes
  pub follow_symlinks : Bool
  pub directory_listing : Bool

abbrev pub default_static : StaticConfig
default_static = record {
  root = codes "./public";
  index_files = codes "index.html" ∷ codes "index.htm" ∷ [];
  follow_symlinks = false;
  directory_listing = false;
}

pub record CompressionConfig : Type 0 where
  pub gzip : Bool
  pub min_bytes : ℕ

abbrev pub default_compression : CompressionConfig
default_compression = record { gzip = true; min_bytes = 1024 }

pub record SecurityConfig : Type 0 where
  pub enable_security_headers : Bool
  pub rate_limit : RateLimitConfig
  pub blocked_patterns : List Bytes

-- Derived: `false`, the default of the part, and no pattern.
abbrev pub default_security : SecurityConfig
default_security = record {
  enable_security_headers = false;
  rate_limit = default_rate_limit;
  blocked_patterns = [];
}

pub record LoggingConfig : Type 0 where
  pub level : Bytes
  pub access_log : Bool

abbrev pub default_logging : LoggingConfig
default_logging = record { level = codes "info"; access_log = true }

pub record TlsConfig : Type 0 where
  pub enabled : Bool
  pub cert_path : Bytes
  pub key_path : Bytes

abbrev pub default_tls : TlsConfig
default_tls = record { enabled = false; cert_path = []; key_path = [] }

pub record AdminConfig : Type 0 where
  pub username : Bytes
  pub password_sha256 : Bytes

abbrev pub default_admin : AdminConfig
default_admin = record { username = []; password_sha256 = [] }

pub record Config : Type 0 where
  pub server : ServerConfig
  pub static_files : StaticConfig
  pub compression : CompressionConfig
  pub security : SecurityConfig
  pub tls : TlsConfig
  pub admin : AdminConfig
  pub logging : LoggingConfig
  pub mime_overrides : List (Bytes × Bytes)

abbrev pub default_config : Config
default_config = record {
  server = default_server;
  static_files = default_static;
  compression = default_compression;
  security = default_security;
  tls = default_tls;
  admin = default_admin;
  logging = default_logging;
  mime_overrides = [];
}

abbrev pub log_levels : List Bytes
log_levels = codes "error" ∷ codes "warn" ∷ codes "info" ∷ codes "debug" ∷ codes "trace" ∷ []

pub data ConfigError : Type 0 where
  json : JsonError → ConfigError
  not_an_object : ConfigError
  wrong_type : Bytes → ConfigError
  invalid_value : Bytes → Bytes → ConfigError
  source : Bytes → ConfigError

-- `Display` of `ConfigError`
abbrev pub show_config_error : ConfigError → Bytes
show_config_error (json e) = codes "invalid JSON: " ++ show_json_error e
show_config_error not_an_object = codes "config root must be a JSON object"
show_config_error (wrong_type path) = codes "wrong type for " ++ path
show_config_error (invalid_value path reason) = codes "invalid " ++ path ++ codes ": " ++ reason
show_config_error (source msg) = codes "config source error: " ++ msg

-- What loading yields; the fuel is that of the JSON parser.
pub data Result (A : Type 0) : Type 0 where
  ok : A → Result A
  err : ConfigError → Result A
  out_of_fuel : Result A

infixl 5 ◌>>=◌ ◌>>◌
abbrev pub ◌>>=◌ : {A B : Type 0} → Result A → (A → Result B) → Result B
ok a >>= next = next a
err e >>= next = err e
out_of_fuel >>= next = out_of_fuel

abbrev pub ◌>>◌ : {A : Type 0} → Result (Unit {0}) → Result A → Result A
first >> rest = first >>= λ _. rest

abbrev pub ok_or : {A : Type 0} → Option A → ConfigError → Result A
ok_or none e = err e
ok_or (some a) e = ok a

-- `return Err(e)` where the test holds.
abbrev pub refuse : Bool → ConfigError → Result (Unit {0})
refuse true e = err e
refuse false e = ok tt

abbrev pub invalid : Bytes → Bytes → ConfigError
invalid path reason = invalid_value path reason

unfoldable pub validate_tls : TlsConfig → Result (Unit {0})
validate_tls tls =
    if tls.enabled
    then refuse (is_empty tls.cert_path)
        (invalid (codes "tls.cert_path") (codes "required when tls.enabled is true"))
      >> refuse (is_empty tls.key_path)
          (invalid (codes "tls.key_path") (codes "required when tls.enabled is true"))
    else ok tt

unfoldable pub validate : Config → Result (Unit {0})
validate cfg = do
  refuse (cfg.server.port == 0) (invalid (codes "server.port") (codes "must be 1-65535"))
  refuse (is_empty cfg.server.bind) (invalid (codes "server.bind") (codes "must not be empty"))
  refuse (is_empty cfg.static_files.root)
      (invalid (codes "static.root") (codes "must not be empty"))
  validate_tls cfg.tls
  refuse (not (any (bytes_eq cfg.logging.level) log_levels))
      (invalid (codes "logging.level") (codes "must be error|warn|info|debug|trace"))
