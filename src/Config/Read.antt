-- ===== src/Config/Read.antt =====
-- crates/core/src/config.rs: the configuration of a JSON value and of a text.
use ferro_http.Base.{
  ℕ, suc, ◌%◌, ◌^◌, Bool, true, false, not, none, some, List, [], ◌∷◌, ◌++◌, ltb, if◌then◌else◌,
  Bytes, codes, u64_max, print_dec,
}
use ferro_http.Json
use ferro_http.Json.{
  Float, JsonValue, object, Items, no_items, item, Members, no_members, member, get, as_bool,
  as_str, as_array, as_u64,
}
use ferro_http.Json.Parse.{parse}
use ferro_http.Security.{RateLimitConfig}
use ferro_http.Config.{
  ServerConfig, StaticConfig, CompressionConfig, SecurityConfig, LoggingConfig, TlsConfig,
  AdminConfig, Config, default_config, ConfigError, json, not_an_object, wrong_type, Result, ok,
  err, out_of_fuel, ◌>>=◌, ◌>>◌, ok_or, refuse, invalid, validate,
}

-- `format!("{path}.{key}")`
abbrev pub qualified : Bytes → Bytes → Bytes
qualified path key = path ++ codes "." ++ key

-- `ConfigError::invalid_owned`
abbrev pub invalid_owned : Bytes → Bytes → Bytes → ConfigError
invalid_owned path key reason = invalid (qualified path key) reason

-- `usize` has 64 bits.
unfoldable pub usize_of : Bytes → Bytes → ℕ → Result ℕ
usize_of key path n =
    if ltb u64_max n then err (invalid_owned path key (codes "value too large")) else ok n

unfoldable pub u16_of : Bytes → Bytes → ℕ → Result ℕ
u16_of key path n =
    if ltb 65535 n then err (invalid_owned path key (codes "must be 1-65535")) else ok (n % 2 ^ 16)

module _ {F : Type 0} where
  -- A field is read where the object has it, and keeps its value otherwise.
  unfoldable pub read_field :
      {A : Type 0} → (JsonValue F → Result A) → JsonValue F → Bytes → A → Result A
  read_field read obj key slot = elim (get obj key) [ none ↦ ok slot | some v ↦ read v ]

  unfoldable pub read_bool : JsonValue F → Bytes → Bool → Bytes → Result Bool
  unfolding read_field
  read_bool obj key slot path =
      read_field (λ v. ok_or (as_bool v) (wrong_type (qualified path key))) obj key slot

  unfoldable pub read_string : JsonValue F → Bytes → Bytes → Bytes → Result Bytes
  unfolding read_field
  read_string obj key slot path =
      read_field (λ v. ok_or (as_str v) (wrong_type (qualified path key))) obj key slot

  unfoldable pub string_items : ℕ → Items F → Bytes → Result (List Bytes)
  string_items i no_items path = ok []
  string_items i (item v vs) path = do
    s ← ok_or (as_str v) (wrong_type (path ++ codes "[" ++ print_dec i ++ codes "]"))
    rest ← string_items (suc i) vs path
    ok (s ∷ rest)

  unfoldable pub read_string_array : JsonValue F → Bytes → Result (List Bytes)
  read_string_array value path = do
    items ← ok_or (as_array value) (wrong_type path)
    string_items 0 items path

  unfoldable pub string_members : Members F → Bytes → Result (List (Bytes × Bytes))
  string_members no_members path = ok []
  string_members (member k v vs) path = do
    s ← ok_or (as_str v) (wrong_type (qualified path k))
    rest ← string_members vs path
    ok ((k, s) ∷ rest)

  unfoldable pub read_string_map : JsonValue F → Bytes → Result (List (Bytes × Bytes))
  read_string_map (object vs) path = string_members vs path
  read_string_map _ path = err (wrong_type path)

  abbrev pub is_object : JsonValue F → Bool
  is_object (object vs) = true
  is_object _ = false

module _ {F : Type 0} (float : Float F) where
  unfoldable pub read_u64 : JsonValue F → Bytes → ℕ → Bytes → Result ℕ
  unfolding read_field
  read_u64 obj key slot path =
      read_field (λ v. ok_or (as_u64 float v) (wrong_type (qualified path key))) obj key slot

  unfoldable pub read_usize : JsonValue F → Bytes → ℕ → Bytes → Result ℕ
  unfolding read_field
  read_usize obj key slot path =
      read_field
        (λ v. ok_or (as_u64 float v) (wrong_type (qualified path key)) >>= usize_of key path) obj
        key slot

  unfoldable pub read_u16 : JsonValue F → Bytes → ℕ → Bytes → Result ℕ
  unfolding read_field
  read_u16 obj key slot path =
      read_field (λ v. ok_or (as_u64 float v) (wrong_type (qualified path key)) >>= u16_of key path)
        obj key slot

  unfoldable pub read_server : JsonValue F → ServerConfig → Result ServerConfig
  read_server value server = do
    bind ← read_string value (codes "bind") server.bind (codes "server")
    port ← read_u16 value (codes "port") server.port (codes "server")
    threads ← read_usize value (codes "worker_threads") server.worker_threads (codes "server")
    most ← read_usize value (codes "max_connections") server.max_connections (codes "server")
    alive ← read_u64 value (codes "keep_alive_secs") server.keep_alive_secs (codes "server")
    timeout ← read_u64 value (codes "read_timeout_secs") server.read_timeout_secs (codes "server")
    bytes ← read_usize value (codes "request_max_bytes") server.request_max_bytes (codes "server")
    ok (record {
      bind = bind;
      port = port;
      worker_threads = threads;
      max_connections = most;
      keep_alive_secs = alive;
      read_timeout_secs = timeout;
      request_max_bytes = bytes;
    })

  unfoldable pub read_static : JsonValue F → StaticConfig → Result StaticConfig
  read_static value cfg = do
    root ← read_string value (codes "root") cfg.root (codes "static")
    follow ← read_bool value (codes "follow_symlinks") cfg.follow_symlinks (codes "static")
    listing ← read_bool value (codes "directory_listing") cfg.directory_listing (codes "static")
    files ←
        read_field (λ v. read_string_array v (codes "static.index_files")) value
          (codes "index_files") cfg.index_files
    ok (record {
      root = root;
      index_files = files;
      follow_symlinks = follow;
      directory_listing = listing;
    })

  unfoldable pub read_compression : JsonValue F → CompressionConfig → Result CompressionConfig
  read_compression value cfg = do
    gzip ← read_bool value (codes "gzip") cfg.gzip (codes "compression")
    least ← read_usize value (codes "min_bytes") cfg.min_bytes (codes "compression")
    ok (record { gzip = gzip; min_bytes = least })

  unfoldable pub read_rate_limit : JsonValue F → RateLimitConfig → Result RateLimitConfig
  read_rate_limit value cfg = do
    enabled ← read_bool value (codes "enabled") cfg.enabled (codes "security.rate_limit")
    requests ← read_u64 value (codes "requests") cfg.requests (codes "security.rate_limit")
    window ← read_u64 value (codes "window_secs") cfg.window_secs (codes "security.rate_limit")
    ban ← read_u64 value (codes "ban_secs") cfg.ban_secs (codes "security.rate_limit")
    ok (record { enabled = enabled; requests = requests; window_secs = window; ban_secs = ban })

  unfoldable pub read_security : JsonValue F → SecurityConfig → Result SecurityConfig
  read_security value cfg = do
    headers ←
        read_bool value (codes "enable_security_headers") cfg.enable_security_headers
          (codes "security")
    limit ←
        read_field (λ v. read_rate_limit v cfg.rate_limit) value (codes "rate_limit") cfg.rate_limit
    patterns ←
        read_field (λ v. read_string_array v (codes "security.blocked_patterns")) value
          (codes "blocked_patterns") cfg.blocked_patterns
    ok (record {
      enable_security_headers = headers;
      rate_limit = limit;
      blocked_patterns = patterns;
    })

  unfoldable pub read_tls : JsonValue F → TlsConfig → Result TlsConfig
  read_tls value tls = do
    enabled ← read_bool value (codes "enabled") tls.enabled (codes "tls")
    cert ← read_string value (codes "cert_path") tls.cert_path (codes "tls")
    key ← read_string value (codes "key_path") tls.key_path (codes "tls")
    ok (record { enabled = enabled; cert_path = cert; key_path = key })

  unfoldable pub read_admin : JsonValue F → AdminConfig → Result AdminConfig
  read_admin value admin = do
    username ← read_string value (codes "username") admin.username (codes "admin")
    password ← read_string value (codes "password_sha256") admin.password_sha256 (codes "admin")
    ok (record { username = username; password_sha256 = password })

  unfoldable pub read_logging : JsonValue F → LoggingConfig → Result LoggingConfig
  read_logging value cfg = do
    level ← read_string value (codes "level") cfg.level (codes "logging")
    access ← read_bool value (codes "access_log") cfg.access_log (codes "logging")
    ok (record { level = level; access_log = access })

  -- The parts in the order of the source, before the validation.
  unfoldable pub read_config : JsonValue F → Config → Result Config
  read_config root cfg = do
    server ← read_field (λ v. read_server v cfg.server) root (codes "server") cfg.server
    files ← read_field (λ v. read_static v cfg.static_files) root (codes "static") cfg.static_files
    compression ←
        read_field (λ v. read_compression v cfg.compression) root (codes "compression")
          cfg.compression
    security ← read_field (λ v. read_security v cfg.security) root (codes "security") cfg.security
    tls ← read_field (λ v. read_tls v cfg.tls) root (codes "tls") cfg.tls
    admin ← read_field (λ v. read_admin v cfg.admin) root (codes "admin") cfg.admin
    logging ← read_field (λ v. read_logging v cfg.logging) root (codes "logging") cfg.logging
    mime ←
        read_field (λ v. read_string_map v (codes "mime_overrides")) root (codes "mime_overrides")
          cfg.mime_overrides
    ok (record {
      server = server;
      static_files = files;
      compression = compression;
      security = security;
      tls = tls;
      admin = admin;
      logging = logging;
      mime_overrides = mime;
    })

  unfoldable pub from_json : JsonValue F → Result Config
  from_json root = do
    refuse (not (is_object root)) not_an_object
    cfg ← read_config root default_config
    validate cfg
    ok cfg

  unfoldable pub from_json_str : Bytes → Result Config
  from_json_str text = elim (parse float text) [
    | Json.Reply.ok v p ↦ from_json v
    | Json.Reply.err e ↦ err (json e)
    | Json.Reply.out_of_fuel ↦ out_of_fuel
  ]
