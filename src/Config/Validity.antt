-- ===== src/Config/Validity.antt =====
-- crates/core/src/config.rs: what holds of every configuration that is loaded, and that loading ends.
use ferro_http.Base.{
  ℕ, ◌≤◌, ◌≡◌, refl, sym, ◌∙◌, Bool, true, false, not, Option, none, some, arith, ltb, ◌==◌, Bytes,
  codes, bytes_eq, is_empty, any,
}
use mathlib.Core.Bool.{false≢true}
use ferro_http.Json.{Float, JsonValue, get, as_u64}
use ferro_http.Config.{
  ServerConfig, TlsConfig, Config, default_config, Result, ok, validate, validate_tls, log_levels,
  ok_or, wrong_type, not_an_object,
}
use ferro_http.Config.Read.{
  read_field, read_u16, u16_of, qualified, read_string, read_usize, read_u64, read_server,
  read_static, read_compression, read_security, read_tls, read_admin, read_logging, read_string_map,
  read_config, from_json, is_object,
}
use ferro_http.Config.Gives.{
  Gives, >>=-Gives, any-Gives, refuse-Gives, Gives-ok, if-Gives, refuse_last,
}

pub record IsSane (c : Config) : Type 0 where
  pub port_least : 1 ≤ c.server.port
  pub port_most : c.server.port ≤ 65535
  pub bind_given : is_empty c.server.bind ≡ false
  pub root_given : is_empty c.static_files.root ≡ false
  pub cert_given : c.tls.enabled ≡ true → is_empty c.tls.cert_path ≡ false
  pub key_given : c.tls.enabled ≡ true → is_empty c.tls.key_path ≡ false
  pub level_known : any (bytes_eq c.logging.level) log_levels ≡ true

u16_of-Gives : (key path : Bytes) (n : ℕ) → Gives (λ m. m ≤ 65535) (u16_of key path n)
unfolding u16_of
u16_of-Gives key path n = if-Gives (λ m. m ≤ 65535) (ltb 65535 n) _ _ (λ e. tt) (λ e. omega arith)

module _ {F : Type 0} (float : Float F) where
  read_field-Gives :
      {A : Type 0} (P : A → Type 0) (read : JsonValue F → Result A) (obj : JsonValue F)
      (key : Bytes) (slot : A)
      → P slot
      → ((v : JsonValue F) → Gives P (read v))
      → Gives P (read_field read obj key slot)
  unfolding read_field
  read_field-Gives {A = A} P read obj key slot kept reads = at_member (get obj key)
    where
      at_member :
          (o : Option (JsonValue F))
          → Gives P (elim o as (λ x. Result A) [ none ↦ ok slot | some v ↦ read v ])
      at_member none = kept
      at_member (some v) = reads v

  read_u16-Gives :
      (obj : JsonValue F) (key : Bytes) (slot : ℕ) (path : Bytes)
      → slot ≤ 65535
      → Gives (λ m. m ≤ 65535) (read_u16 float obj key slot path)
  unfolding read_u16
  read_u16-Gives obj key slot path small =
      read_field-Gives (λ m. m ≤ 65535) _ obj key slot small
        λ v.
          any-Gives (λ m. m ≤ 65535) (ok_or (as_u64 float v) (wrong_type (qualified path key))) _
            (u16_of-Gives key path)

  read_server-Gives :
      (v : JsonValue F) (d : ServerConfig)
      → d.port ≤ 65535
      → Gives (λ c. c.port ≤ 65535) (read_server float v d)
  unfolding read_server
  read_server-Gives v d small =
      any-Gives Q (read_string v (codes "bind") d.bind (codes "server")) _ λ bind.
        >>=-Gives (λ n. n ≤ 65535) Q (read_u16 float v (codes "port") d.port (codes "server")) _
          (read_u16-Gives v (codes "port") d.port (codes "server") small)
          λ port le.
            any-Gives Q
              (read_usize float v (codes "worker_threads") d.worker_threads (codes "server")) _
              λ a.
                any-Gives Q
                  (read_usize float v (codes "max_connections") d.max_connections (codes "server"))
                  _
                  λ b.
                    any-Gives Q
                      (read_u64 float v (codes "keep_alive_secs") d.keep_alive_secs
                        (codes "server"))
                      _
                      λ e.
                        any-Gives Q
                          (read_u64 float v (codes "read_timeout_secs") d.read_timeout_secs
                            (codes "server"))
                          _
                          λ f.
                            any-Gives Q
                              (read_usize float v (codes "request_max_bytes") d.request_max_bytes
                                (codes "server"))
                              _ (λ g. le)
    where
      Q : ServerConfig → Type 0
      Q c = c.port ≤ 65535

  read_config-Gives :
      (root : JsonValue F)
      → Gives (λ c. c.server.port ≤ 65535) (read_config float root default_config)
  unfolding read_config
  read_config-Gives root =
      >>=-Gives (λ c. c.port ≤ 65535) Q
        (read_field (λ v. read_server float v d.server) root (codes "server") d.server) _
        (read_field-Gives (λ c. c.port ≤ 65535) (λ v. read_server float v d.server) root
          (codes "server") d.server (omega arith) (λ v. read_server-Gives v d.server (omega arith)))
        λ server le.
          any-Gives Q
            (read_field (λ v. read_static float v d.static_files) root (codes "static")
              d.static_files)
            _
            λ a.
              any-Gives Q
                (read_field (λ v. read_compression float v d.compression) root (codes "compression")
                  d.compression)
                _
                λ b.
                  any-Gives Q
                    (read_field (λ v. read_security float v d.security) root (codes "security")
                      d.security)
                    _
                    λ e.
                      any-Gives Q
                        (read_field (λ v. read_tls float v d.tls) root (codes "tls") d.tls) _
                        λ f.
                          any-Gives Q
                            (read_field (λ v. read_admin float v d.admin) root (codes "admin")
                              d.admin)
                            _
                            λ g.
                              any-Gives Q
                                (read_field (λ v. read_logging float v d.logging) root
                                  (codes "logging") d.logging)
                                _
                                λ h.
                                  any-Gives Q
                                    (read_field (λ v. read_string_map v (codes "mime_overrides"))
                                      root (codes "mime_overrides") d.mime_overrides)
                                    _ (λ k. le)
    where
      d : Config
      d = default_config

      Q : Config → Type 0
      Q c = c.server.port ≤ 65535

record PathsGiven (tls : TlsConfig) : Type 0 where
  cert : tls.enabled ≡ true → is_empty tls.cert_path ≡ false
  key : tls.enabled ≡ true → is_empty tls.key_path ≡ false

validate_tls-Gives : (tls : TlsConfig) → Gives (λ u. PathsGiven tls) (validate_tls tls)
unfolding validate_tls
validate_tls-Gives tls =
    if-Gives (λ u. PathsGiven tls) tls.enabled _ _
      (λ on.
        refuse-Gives (λ u. PathsGiven tls) (is_empty tls.cert_path) _ _
          λ cert.
            refuse_last (PathsGiven tls) (is_empty tls.key_path) _
              λ key. record { cert = λ e. cert; key = λ e. key })
      (λ off. record {
        cert = λ on. absurd (false≢true (sym off ∙ on));
        key = λ on. absurd (false≢true (sym off ∙ on));
      })

validate-Gives : (c : Config) → c.server.port ≤ 65535 → Gives (λ u. IsSane c) (validate c)
unfolding validate
validate-Gives c most =
    refuse-Gives (λ u. IsSane c) (c.server.port == 0) _ _
      λ port.
        refuse-Gives (λ u. IsSane c) (is_empty c.server.bind) _ _
          λ bind.
            refuse-Gives (λ u. IsSane c) (is_empty c.static_files.root) _ _
              λ root.
                >>=-Gives (λ u. PathsGiven c.tls) (λ u. IsSane c) (validate_tls c.tls) _
                  (validate_tls-Gives c.tls)
                  λ u given.
                    refuse_last (IsSane c) (not (any (bytes_eq c.logging.level) log_levels)) _
                      λ level. record {
                        port_least = ground (arith, port);
                        port_most = most;
                        bind_given = bind;
                        root_given = root;
                        cert_given = given.cert;
                        key_given = given.key;
                        level_known = known (any (bytes_eq c.logging.level) log_levels) level;
                      }
  where
    known : (b : Bool) → not b ≡ false → b ≡ true
    known true h = refl
    known false h = cc

module _ {F : Type 0} (float : Float F) where
  -- Every configuration that is loaded has a port from 1 to 65535, an address, a root, the paths that
  -- TLS needs where it is enabled, and a known log level.
  pub from_json-IsSane : (root : JsonValue F) (c : Config) → from_json float root ≡ ok c → IsSane c
  unfolding from_json
  from_json-IsSane root c loaded =
      Gives-ok IsSane (from_json float root)
        (refuse-Gives IsSane (not (is_object root)) not_an_object _ λ object.
          >>=-Gives (λ d. d.server.port ≤ 65535) IsSane (read_config float root default_config) _
            (read_config-Gives float root)
            λ d most.
              >>=-Gives (λ u. IsSane d) IsSane (validate d) _ (validate-Gives d most)
                (λ u sane. sane))
        loaded
