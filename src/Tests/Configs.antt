-- ===== src/Tests/Configs.antt =====
-- Runs of the JSON parser and of the configuration, with the numbers of 64 bits for `f64`.
use ferro_http.Base.{
  ℕ, zero, suc, ◌+◌, ◌-◌, ◌*◌, ◌/◌, ◌%◌, ◌≤◌, ◌<◌, ◌≡◌, refl, ap, ◌∙◌, ◌≢◌, inl, inr, some, [], ◌∷◌,
  ◌++◌, arith, ltb, leb, ◌==◌, Bool-cases, Bytes, codes, bytes_eq, starts_with, utf8_valid,
  parse_digits, parse_uint, dec_digits, print_dec,
}
use ferro_http.Json.{
  Float, JsonValue, object, array, number, item, no_items, member, no_members, Reply, Parser,
  find_member, get, as_u64, skip_ws_from, skip_ws, expect,
}
use ferro_http.Json
use ferro_http.Json.Text.{
  utf8_len, to_digit_16, read_hex, read_hex4, from_u32, encode_utf8, low_surrogate, scalar,
  parse_unicode_escape, simple_escape, escape_of, parse_escape, verbatim, string_turn, string_loop,
  parse_string,
}
use ferro_http.Json.Parse.{
  max_depth, parse, digits_len, consume_digits, skip_sign, fraction, exponent, parse_number,
  parse_bool, parse_null, after_element, items_loop, members_loop, parse_array, parse_object,
  value_at, parse_value,
}
use ferro_http.Json.Parse.Total.{parse_total}
use ferro_http.Json.Parse.Depth.{depth_of, parse-depth}
use ferro_http.Config.{Config, default_config, validate, validate_tls, ok}
use ferro_http.Config.Read.{
  from_json_str, from_json, read_field, read_bool, read_string, string_items, read_string_array,
  string_members, read_string_map, read_u64, usize_of, read_usize, u16_of, read_u16, read_server,
  read_static, read_compression, read_rate_limit, read_security, read_tls, read_admin, read_logging,
  read_config,
}
use ferro_http.Config.Write.{
  escape_byte, escape_json, json_items, json_string_array, more_lines, block, json_string_object,
  server_text, static_text, compression_text, rate_limit_text, security_text, tls_text, admin_text,
  logging_text, to_json_string,
}
use ferro_http.Config.Fields.{IsExact}
use ferro_http.Config.RoundTrip.{Fits, from_json_str-to_json_string}
use ferro_http.Config.Validity.{IsSane, from_json-IsSane}

-- The value of decimal digits behind a value.
decimal : ℕ → Bytes → ℕ
decimal value [] = value
decimal value (d ∷ ds) = decimal (value * 10 + (d - b'0')) ds

decimal-append : (v : ℕ) (xs ys : Bytes) → decimal v (xs ++ ys) ≡ decimal (decimal v xs) ys
unfolding decimal
decimal-append v [] ys = refl
decimal-append v (x ∷ xs) ys = decimal-append (v * 10 + (x - b'0')) xs ys

decimal-dec_digits : (fuel n : ℕ) → n < fuel → decimal 0 (dec_digits fuel n) ≡ n
unfolding decimal dec_digits
decimal-dec_digits zero n enough = absurd (omega (arith, enough))
decimal-dec_digits (suc fuel) n enough = elim (Bool-cases (ltb n 10)) [
  | inl small ↦ rw small (omega arith)
  | inr big ↦ rw big (
      decimal-append 0 (dec_digits fuel (n / 10)) ((n % 10 + b'0') ∷ [])
      ∙ ap (λ v. v * 10 + (n % 10 + b'0' - b'0'))
          (decimal-dec_digits fuel (n / 10) (ground (arith, big, enough)))
      ∙ omega arith)
]

decimal-print_dec : (n : ℕ) → decimal 0 (print_dec n) ≡ n
unfolding print_dec
decimal-print_dec n = decimal-dec_digits (suc n) n (omega arith)

unfoldable whole : Float ℕ
unfolding decimal
whole = record {
  parse = λ ds. some (decimal 0 ds);
  of_u64 = λ n. n;
  to_u64 = λ n. n;
  le = leb;
  eq = ◌==◌;
}

whole-IsExact : IsExact whole
unfolding whole
whole-IsExact = record {
  parse_exact = λ n small. ap some (decimal-print_dec n);
  cast_back = λ n small. refl;
  zero_le = λ n small. ground arith;
  le_max = λ n small. ground (arith, small);
  eq_self = λ n small. ground arith;
}

unfoldable reading : Unit {0}
unfolding whole decimal bytes_eq starts_with utf8_valid parse_uint parse_digits find_member get
    as_u64 skip_ws_from skip_ws expect utf8_len to_digit_16 read_hex read_hex4 from_u32 encode_utf8
    low_surrogate scalar parse_unicode_escape simple_escape escape_of parse_escape verbatim
    string_turn string_loop parse_string parse digits_len consume_digits skip_sign fraction exponent
    parse_number parse_bool parse_null after_element items_loop members_loop parse_array
    parse_object value_at parse_value validate validate_tls from_json_str from_json read_field
    read_bool read_string string_items read_string_array string_members read_string_map read_u64
    usize_of read_usize u16_of read_u16 read_server read_static read_compression read_rate_limit
    read_security read_tls read_admin read_logging read_config
reading = tt

unfoldable writing : Unit {0}
unfolding dec_digits print_dec escape_byte escape_json json_items json_string_array more_lines block
    json_string_object server_text static_text compression_text rate_limit_text security_text
    tls_text admin_text logging_text to_json_string
writing = tt

abbrev default_text : Bytes
default_text =
    codes
      "{\n  \"server\": {\n    \"bind\": \"0.0.0.0\",\n    \"port\": 8080,\n    \"worker_threads\": 0,\n    \"max_connections\": 1024,\n    \"keep_alive_secs\": 15,\n    \"read_timeout_secs\": 30,\n    \"request_max_bytes\": 1048576\n  },\n  \"static\": {\n    \"root\": \"./public\",\n    \"index_files\": [\"index.html\", \"index.htm\"],\n    \"follow_symlinks\": false,\n    \"directory_listing\": false\n  },\n  \"compression\": {\n    \"gzip\": true,\n    \"min_bytes\": 1024\n  },\n  \"security\": {\n    \"enable_security_headers\": false,\n    \"rate_limit\": {\n      \"enabled\": true,\n      \"requests\": 600,\n      \"window_secs\": 600,\n      \"ban_secs\": 300\n    },\n    \"blocked_patterns\": []\n  },\n  \"tls\": {\n    \"enabled\": false,\n    \"cert_path\": \"\",\n    \"key_path\": \"\"\n  },\n  \"admin\": {\n    \"username\": \"\",\n    \"password_sha256\": \"\"\n  },\n  \"logging\": {\n    \"level\": \"info\",\n    \"access_log\": true\n  },\n  \"mime_overrides\": {}\n}\n"

to_json_string-default : to_json_string default_config ≡ default_text
unfolding writing
to_json_string-default = refl

from_json_str-default : from_json_str whole default_text ≡ ok default_config
unfolding reading
from_json_str-default = refl

default-Fits : Fits default_config
unfolding utf8_valid
default-Fits = record {
  server_fits = record {
    bind_valid = refl;
    port_fits = omega arith;
    worker_threads_fit = omega arith;
    max_connections_fit = omega arith;
    keep_alive_secs_fit = omega arith;
    read_timeout_secs_fit = omega arith;
    request_max_bytes_fit = omega arith;
  };
  static_fits = record { root_valid = refl; index_valid = refl };
  compression_fits = omega arith;
  security_fits = record {
    requests_fit = omega arith;
    window_fits = omega arith;
    ban_fits = omega arith;
    patterns_valid = refl;
  };
  cert_valid = refl;
  key_valid = refl;
  username_valid = refl;
  password_valid = refl;
  level_valid = refl;
  mime_valid = refl;
}

default_valid : validate default_config ≡ ok tt
unfolding validate validate_tls bytes_eq
default_valid = refl

from_json_str-to_json_string_example :
    from_json_str whole (to_json_string default_config) ≡ ok default_config
from_json_str-to_json_string_example =
    from_json_str-to_json_string whole whole-IsExact default_config default-Fits default_valid

parse_total_example : parse whole (codes "[1, {\"a\": null}]") ≢ Json.Reply.out_of_fuel
parse_total_example = parse_total whole (codes "[1, {\"a\": null}]")

abbrev nested : JsonValue ℕ
nested = array (item (array (item (number 1) no_items)) no_items)

parse-nested : parse whole (codes "[[1]]") ≡ Json.Reply.ok nested (record { pos = 5; rest = [] })
unfolding reading
parse-nested = refl

parse-depth_example : depth_of nested ≤ max_depth
parse-depth_example =
    parse-depth whole (codes "[[1]]") nested (record { pos = 5; rest = [] }) parse-nested

abbrev port_only : JsonValue ℕ
port_only =
    object
      (member (codes "server") (object (member (codes "port") (number 9000) no_members)) no_members)

abbrev on_9000 : Config
on_9000 = record default_config { server = record default_config.server { port = 9000 } }

from_json-port_only : from_json whole port_only ≡ ok on_9000
unfolding reading
from_json-port_only = refl

from_json-IsSane_example : IsSane on_9000
from_json-IsSane_example = from_json-IsSane whole port_only on_9000 from_json-port_only
