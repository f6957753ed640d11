-- ===== src/Stats.antt =====
-- crates/std-server/src/webui/stats.rs: the counters of the admin panel. Each is a 64-bit atomic,
-- whose additions wrap; a call of `record` is one step.
pub mod Balance
use ferro_http.Base.{
  ℕ, zero, suc, ◌+◌, ◌-◌, ◌*◌, ◌/◌, ◌%◌, ◌^◌, ◌≤◌, ◌<◌, min, ◌≡◌, refl, sym, ap, ◌∙◌, ◌≢◌, ◌↔◌, ◌⊎◌,
  inl, inr, Bool, true, false, not, ◌&&◌, ◌||◌, Option, none, some, List, [], ◌∷◌, ◌++◌, map,
  append_assoc, append-nil, arith, ltb, leb, ◌==◌, if◌then◌else◌, ltb→lt, lt→ltb, leb→le, ==_iff,
  Bool-cases, Option-cases, length, get_elem?, get_or, replicate, take, drop, length-append,
  length-take, length-drop, take-append-drop, take-append, drop-append, Bytes, codes, within,
  bytes_eq, bytes_eq_iff, is_empty, all, any, filter, position, find, u64_max, u32_max,
  is_ascii_digit, is_ascii_alphabetic, is_ascii_alphanumeric, eq_ignore_ascii_case, starts_with,
  strip_prefix, split_once, split, utf8_valid, trim, parse_digits, parse_uint, dec_digits,
  print_dec, to_ascii_lowercase, wrapping_add, print_hex, cons_head, hex_digits,
}

pub record Stats : Type 0 where
  pub total : ℕ
  pub status_2xx : ℕ
  pub status_3xx : ℕ
  pub status_4xx : ℕ
  pub status_5xx : ℕ
  pub bytes_out : ℕ

-- `Stats::new`
abbrev pub new_stats : Stats
new_stats = record {
  total = 0;
  status_2xx = 0;
  status_3xx = 0;
  status_4xx = 0;
  status_5xx = 0;
  bytes_out = 0;
}

-- The counter that a status adds to.
unfoldable pub count_status : ℕ → Stats → Stats
count_status code s =
    if within 200 299 code
    then record s { status_2xx = wrapping_add s.status_2xx 1 }
    else if within 300 399 code
    then record s { status_3xx = wrapping_add s.status_3xx 1 }
    else if within 400 499 code
    then record s { status_4xx = wrapping_add s.status_4xx 1 }
    else record s { status_5xx = wrapping_add s.status_5xx 1 }

-- `Stats::record`
unfoldable pub record_response : ℕ → ℕ → Stats → Stats
record_response code body_len s =
    let counted = count_status code (record s { total = wrapping_add s.total 1 }) in
    record counted { bytes_out = wrapping_add counted.bytes_out body_len }

abbrev field : Bytes → ℕ → Bytes
field name n = codes "\"" ++ (name ++ (codes "\":" ++ print_dec n))

pub snapshot_json : ℕ → Stats → Bytes
snapshot_json uptime_secs s =
    codes "{"
    ++ field (codes "uptime_secs") uptime_secs
    ++ codes ","
    ++ field (codes "total_requests") s.total
    ++ codes ","
    ++ field (codes "status_2xx") s.status_2xx
    ++ codes ","
    ++ field (codes "status_3xx") s.status_3xx
    ++ codes ","
    ++ field (codes "status_4xx") s.status_4xx
    ++ codes ","
    ++ field (codes "status_5xx") s.status_5xx
    ++ codes ","
    ++ field (codes "bytes_out") s.bytes_out
    ++ codes "}"
