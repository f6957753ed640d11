-- ===== src/Http/Date.antt =====
-- crates/core/src/http/date.rs: writing an HTTP date. A time after the epoch is a day count that is
-- not negative, so the `i64` arithmetic of `civil_from_days` stays above 0 on every step.
pub mod Parse
use ferro_http.Base.{
  ℕ, zero, suc, ◌+◌, ◌-◌, ◌*◌, ◌/◌, ◌%◌, ◌^◌, ◌≤◌, ◌<◌, min, ◌≡◌, refl, sym, ap, ◌∙◌, ◌≢◌, ◌↔◌, ◌⊎◌,
  inl, inr, Bool, true, false, not, ◌&&◌, ◌||◌, Option, none, some, List, [], ◌∷◌, ◌++◌, map,
  append_assoc, append-nil, arith, ltb, leb, ◌==◌, if◌then◌else◌, ltb→lt, lt→ltb, leb→le, ==_iff,
  Bool-cases, Option-cases, length, get_elem?, get_or, replicate, take, drop, length-append,
  length-take, length-drop, take-append-drop, take-append, drop-append, Bytes, codes, within,
  bytes_eq, bytes_eq_iff, is_empty, all, any, filter, position, find, u64_max, u32_max,
  is_ascii_digit, is_ascii_alphabetic, is_ascii_alphanumeric, eq_ignore_ascii_case, starts_with,
  strip_prefix, split_once, split, utf8_valid, trim, parse_digits, parse_uint, dec_digits,
  print_dec, to_ascii_lowercase, wrapping_add, print_hex, cons_head, hex_digits,
}

abbrev weekdays : List Bytes
weekdays =
    codes "Sun"
    ∷ codes "Mon"
    ∷ codes "Tue"
    ∷ codes "Wed"
    ∷ codes "Thu"
    ∷ codes "Fri"
    ∷ codes "Sat"
    ∷ []

abbrev pub months : List Bytes
months =
    codes "Jan"
    ∷ codes "Feb"
    ∷ codes "Mar"
    ∷ codes "Apr"
    ∷ codes "May"
    ∷ codes "Jun"
    ∷ codes "Jul"
    ∷ codes "Aug"
    ∷ codes "Sep"
    ∷ codes "Oct"
    ∷ codes "Nov"
    ∷ codes "Dec"
    ∷ []

pub record Civil : Type 0 where
  pub year : ℕ
  pub month : ℕ
  pub day : ℕ

unfoldable pub civil_from_days : ℕ → Civil
civil_from_days days =
    let z = days + 719468 in
    let era = z / 146097 in
    let doe = z - era * 146097 in
    let yoe = (doe - doe / 1460 + doe / 36524 - doe / 146096) / 365 in
    let year = yoe + era * 400 in
    let doy = doe - (365 * yoe + yoe / 4 - yoe / 100) in
    let mp = (5 * doy + 2) / 153 in
    let day = doy - (153 * mp + 2) / 5 + 1 in
    let month = if ltb mp 10 then mp + 3 else mp - 9 in
    record { year = if leb month 2 then year + 1 else year; month = month; day = day }

-- `{:0w}` of an unsigned integer.
unfoldable pub pad : ℕ → ℕ → Bytes
pad w n = replicate (w - length (print_dec n)) b'0' ++ print_dec n

abbrev write_date : ℕ → Civil → ℕ → Bytes
write_date weekday c secs =
    get_or weekdays weekday []
    ++ codes ", "
    ++ pad 2 c.day
    ++ codes " "
    ++ get_or months (c.month - 1) []
    ++ codes " "
    ++ pad 4 c.year
    ++ codes " "
    ++ pad 2 (secs / 3600)
    ++ codes ":"
    ++ pad 2 (secs % 3600 / 60)
    ++ codes ":"
    ++ pad 2 (secs % 60)
    ++ codes " GMT"

unfoldable pub http_date : ℕ → Bytes
http_date unix_secs =
    let days = unix_secs / 86400 in
    write_date ((days % 7 + 4) % 7) (civil_from_days days) (unix_secs % 86400)
