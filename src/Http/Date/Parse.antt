-- ===== src/Http/Date/Parse.antt =====
-- crates/core/src/http/date.rs: reading an HTTP date. An `i64` is its two's complement, a number
-- below 2^64, and its sums and products wrap.
use ferro_http.Base.{
  ℕ, ◌+◌, ◌-◌, ◌*◌, ◌/◌, ◌%◌, ◌^◌, Bool, not, ◌||◌, Option, none, some, List, [], ◌∷◌, ltb, leb,
  ◌==◌, if◌then◌else◌, Bytes, codes, within, bytes_eq, position, u64_max, split, parse_digits,
  parse_uint,
}
use mathlib.Core.Option
use ferro_http.Http.Date.{months}
use ferro_http.Base.Optional.{◌>>=◌}

abbrev pub i64_is_negative : ℕ → Bool
i64_is_negative a = leb (2 ^ 63) a

unfoldable pub i64_neg : ℕ → ℕ
i64_neg a = (2 ^ 64 - a) % 2 ^ 64

unfoldable pub i64_add : ℕ → ℕ → ℕ
i64_add a b = (a + b) % 2 ^ 64

unfoldable pub i64_sub : ℕ → ℕ → ℕ
i64_sub a b = (a + (2 ^ 64 - b)) % 2 ^ 64

unfoldable pub i64_mul : ℕ → ℕ → ℕ
i64_mul a b = (a * b) % 2 ^ 64

-- Division by a positive number, towards 0.
unfoldable pub i64_div : ℕ → ℕ → ℕ
unfolding i64_neg
i64_div a k = if i64_is_negative a then i64_neg (i64_neg a / k) else a / k

-- `parse::<i64>().ok()`
unfoldable pub parse_i64 : Bytes → Option ℕ
unfolding i64_neg
parse_i64 [] = none
parse_i64 (c ∷ []) = parse_uint (2 ^ 63 - 1) (c ∷ [])
parse_i64 (c ∷ d ∷ cs) =
    if c == b'-'
    then Option.map i64_neg (parse_digits (2 ^ 63) 0 (d ∷ cs))
    else parse_uint (2 ^ 63 - 1) (c ∷ d ∷ cs)

unfoldable pub days_from_civil : ℕ → ℕ → ℕ → ℕ
unfolding i64_add i64_sub i64_mul i64_div
days_from_civil year month day =
    let y = if leb month 2 then i64_sub year 1 else year in
    let era = i64_div (if i64_is_negative y then i64_sub y 399 else y) 400 in
    let yoe = i64_sub y (i64_mul era 400) in
    let mp = if ltb 2 month then month - 3 else month + 9 in
    let doy = (153 * mp + 2) / 5 + day - 1 in
    let doe = i64_add (i64_sub (i64_add (i64_mul yoe 365) (i64_div yoe 4)) (i64_div yoe 100)) doy in
    i64_sub (i64_add (i64_mul era 146097) doe) 719468

-- The fields of the date, as numbers that are in range.
abbrev date_of : ℕ → ℕ → ℕ → ℕ → ℕ → ℕ → Option ℕ
date_of day month year hour minute second =
    let days = days_from_civil year month day in
    if not (within 1 31 day) || ltb 23 hour || ltb 59 minute || ltb 60 second
    then none
    else if i64_is_negative days
    then none
    else some ((days * 86400 + hour * 3600 + minute * 60 + second) % 2 ^ 64)

-- The parts of the time of day.
abbrev time_of : List Bytes → Option (ℕ × ℕ × ℕ)
time_of (h ∷ m ∷ s ∷ []) = do
  hour ← parse_uint u64_max h
  minute ← parse_uint u64_max m
  second ← parse_uint u64_max s
  some (hour, minute, second)
time_of _ = none

-- The parts of the date; the weekday is not read.
abbrev date_parts : List Bytes → Option ℕ
date_parts (_ ∷ d ∷ mon ∷ y ∷ time ∷ zone ∷ []) = do
  day ← parse_i64 d
  index ← position (λ m. bytes_eq m mon) months
  year ← parse_i64 y
  (hour, minute, second) ← time_of (split b':' time)
  if bytes_eq zone (codes "GMT") then date_of day (index + 1) year hour minute second else none
date_parts _ = none

unfoldable pub parse_http_date : Bytes → Option ℕ
unfolding days_from_civil parse_i64
parse_http_date value = date_parts (split b' ' value)
