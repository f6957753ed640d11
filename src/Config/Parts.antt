-- ===== src/Config/Parts.antt =====
-- crates/core/src/config.rs: each part of the configuration is read back from what is written of it.
pub mod Plain
pub mod Lists
pub mod Mime
use ferro_http.Base.{
  ℕ, zero, suc, ◌+◌, ◌-◌, ◌*◌, ◌/◌, ◌%◌, ◌^◌, ◌≤◌, ◌<◌, min, ◌≡◌, refl, sym, ap, ◌∙◌, ◌≢◌, ◌↔◌, ◌⊎◌,
  inl, inr, Bool, true, false, not, ◌&&◌, ◌||◌, Option, none, some, List, [], ◌∷◌, ◌++◌, map,
  append_assoc, append-nil, arith, ltb, leb, ◌==◌, if◌then◌else◌, ltb→lt, lt→ltb, leb→le, ==_iff,
  Bool-cases, Option-cases, length, get_elem?, get_or, replicate, take, drop, length-append,
  length-take, length-drop, take-append-drop, take-append, drop-append, Bytes, codes, within,
  bytes_eq, bytes_eq_iff, is_empty, all, any, filter, position, find, u64_max, u32_max,
  is_ascii_digit, is_ascii_alphabetic, is_ascii_alphanumeric, eq_ignore_ascii_case, starts_with,
  strip_prefix, split_once, split, utf8_valid, trim, parse_digits, parse_uint, dec_digits,
  print_dec, to_ascii_lowercase, wrapping_add, print_hex, cons_head, hex_digits,
}
use ferro_http.Json.{Float, JsonValue, get, find_member}
use ferro_http.Config.{ServerConfig, Result, ok}
use ferro_http.Config.Read.{
  read_field, read_string, read_u64, read_usize, read_u16, usize_of, u16_of, read_server,
}
use ferro_http.Config.Write.{escape_byte, escape_json, server_text}
use ferro_http.Config.Values.{Reads}
use ferro_http.Config.Members.{Field, entry, members_of, starts_value}
use ferro_http.Config.Fields.{IsExact, as_u64-exact, text_field, number_field, object_field}

-- The numbers that `f64` holds exactly, and valid texts.
pub record ServerFits (c : ServerConfig) : Type 0 where
  pub bind_valid : utf8_valid c.bind ≡ true
  pub port_fits : c.port ≤ 65535
  pub worker_threads_fit : c.worker_threads ≤ 2 ^ 53
  pub max_connections_fit : c.max_connections ≤ 2 ^ 53
  pub keep_alive_secs_fit : c.keep_alive_secs ≤ 2 ^ 53
  pub read_timeout_secs_fit : c.read_timeout_secs ≤ 2 ^ 53
  pub request_max_bytes_fit : c.request_max_bytes ≤ 2 ^ 53

-- What is written of a part, as the member of the object around it, and what it reads as.
pub record Part {F : Type 0} (float : Float F) (text : Bytes) {C : Type 0}
    (read : JsonValue F → Result C) (c : C) : Type 0 where
  pub value : JsonValue F
  pub starts : starts_value text ≡ true
  pub text_reads : Reads float 2 text value
  pub read_back : read value ≡ ok c

pub usize_of-small : (key path : Bytes) (n : ℕ) → n ≤ 2 ^ 53 → usize_of key path n ≡ ok n
unfolding usize_of
usize_of-small key path n small = ground (arith, small)

u16_of-small : (key path : Bytes) (n : ℕ) → n ≤ 65535 → u16_of key path n ≡ ok n
unfolding u16_of
u16_of-small key path n small = rw in_range (ap ok (omega arith))
  where
    in_range : ltb 65535 n ≡ false
    in_range = ground (arith, small)

module _ {F : Type 0} (float : Float F) (exact : IsExact float) where
  pub server-Part :
      (c d : ServerConfig)
      → ServerFits c
      → Part float (server_text c) (λ v. read_server float v d) c
  unfolding server_text read_server read_field read_string read_u16 read_usize read_u64 get
      find_member bytes_eq escape_json escape_byte utf8_valid entry members_of
  server-Part c d fits = record {
    value = field.value;
    starts = field.text_starts;
    text_reads = field.text_reads;
    read_back =
        rw
          (
            as_u64-exact float exact c.port (omega (arith, fits.port_fits)),
            u16_of-small (codes "port") (codes "server") c.port fits.port_fits,
            as_u64-exact float exact c.worker_threads fits.worker_threads_fit,
            usize_of-small (codes "worker_threads") (codes "server") c.worker_threads
                fits.worker_threads_fit,
            as_u64-exact float exact c.max_connections fits.max_connections_fit,
            usize_of-small (codes "max_connections") (codes "server") c.max_connections
                fits.max_connections_fit,
            as_u64-exact float exact c.keep_alive_secs fits.keep_alive_secs_fit,
            as_u64-exact float exact c.read_timeout_secs fits.read_timeout_secs_fit,
            as_u64-exact float exact c.request_max_bytes fits.request_max_bytes_fit,
            usize_of-small (codes "request_max_bytes") (codes "server") c.request_max_bytes
                fits.request_max_bytes_fit,
          )
          refl;
  }
    where
      field : Field float 2
      field =
          object_field float 1 (codes "server") (codes "  ") (codes "    ")
            (text_field float 1 (codes "bind") c.bind refl fits.bind_valid)
            (number_field float 1 (codes "port") c.port refl exact (omega (arith, fits.port_fits))
              ∷ number_field float 1 (codes "worker_threads") c.worker_threads refl exact
                  fits.worker_threads_fit
              ∷ number_field float 1 (codes "max_connections") c.max_connections refl exact
                  fits.max_connections_fit
              ∷ number_field float 1 (codes "keep_alive_secs") c.keep_alive_secs refl exact
                  fits.keep_alive_secs_fit
              ∷ number_field float 1 (codes "read_timeout_secs") c.read_timeout_secs refl exact
                  fits.read_timeout_secs_fit
              ∷ number_field float 1 (codes "request_max_bytes") c.request_max_bytes refl exact
                  fits.request_max_bytes_fit
              ∷ [])
            refl refl refl
