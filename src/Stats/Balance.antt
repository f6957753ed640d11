-- ===== src/Stats/Balance.antt =====
-- crates/std-server/src/webui/stats.rs: each counter counts its share of the traffic.
use ferro_http.Base.{
  ℕ, ◌+◌, ◌%◌, ◌^◌, ◌≡◌, Bool, ◌&&◌, ◌||◌, List, [], ◌∷◌, arith, ltb, leb, if◌then◌else◌, length,
  wrapping_add,
}
use ferro_http.Stats.{Stats, new_stats, count_status, record_response}

-- The state after these responses, each a status and a body length.
unfoldable pub record_all : List (ℕ × ℕ) → Stats → Stats
record_all [] s = s
record_all ((code, len) ∷ rs) s = record_all rs (record_response code len s)

abbrev pub body_bytes : List (ℕ × ℕ) → ℕ
body_bytes [] = 0
body_bytes ((code, len) ∷ rs) = len + body_bytes rs

-- How many of these responses have a status that the test takes.
abbrev pub answered : (ℕ → Bool) → List (ℕ × ℕ) → ℕ
answered is_counted [] = 0
answered is_counted ((code, len) ∷ rs) = (if is_counted code then 1 else 0) + answered is_counted rs

-- The statuses of a field; the last one takes all that the others do not.
abbrev pub is_2xx : ℕ → Bool
is_2xx code = leb 200 code && leb code 299

abbrev pub is_3xx : ℕ → Bool
is_3xx code = leb 300 code && leb code 399

abbrev pub is_4xx : ℕ → Bool
is_4xx code = leb 400 code && leb code 499

abbrev pub is_other : ℕ → Bool
is_other code = ltb code 200 || ltb 499 code

-- The counters of the first state are those of the second and these responses, modulo 2^64.
record Counts (rs : List (ℕ × ℕ)) (s after : Stats) : Type 0 where
  pub total : after.total % 2 ^ 64 ≡ (s.total + length rs) % 2 ^ 64
  pub as_2xx : after.status_2xx % 2 ^ 64 ≡ (s.status_2xx + answered is_2xx rs) % 2 ^ 64
  pub as_3xx : after.status_3xx % 2 ^ 64 ≡ (s.status_3xx + answered is_3xx rs) % 2 ^ 64
  pub as_4xx : after.status_4xx % 2 ^ 64 ≡ (s.status_4xx + answered is_4xx rs) % 2 ^ 64
  pub as_other : after.status_5xx % 2 ^ 64 ≡ (s.status_5xx + answered is_other rs) % 2 ^ 64
  pub bytes : after.bytes_out % 2 ^ 64 ≡ (s.bytes_out + body_bytes rs) % 2 ^ 64

record_response-Counts :
    (code len : ℕ) (s : Stats) → Counts ((code, len) ∷ []) s (record_response code len s)
unfolding record_response count_status wrapping_add
record_response-Counts code len s = record {
  total = ground arith;
  as_2xx = ground arith;
  as_3xx = ground arith;
  as_4xx = ground arith;
  as_other = ground arith;
  bytes = ground arith;
}

record_all-Counts : (rs : List (ℕ × ℕ)) (s : Stats) → Counts rs s (record_all rs s)
unfolding record_all
record_all-Counts [] s = record {
  total = omega arith;
  as_2xx = omega arith;
  as_3xx = omega arith;
  as_4xx = omega arith;
  as_other = omega arith;
  bytes = omega arith;
}
record_all-Counts ((code, len) ∷ rs) s =
    let one = record_response-Counts code len s in
    let more = record_all-Counts rs (record_response code len s) in
    record {
      total = omega (arith, one.total, more.total);
      as_2xx = omega (arith, one.as_2xx, more.as_2xx);
      as_3xx = omega (arith, one.as_3xx, more.as_3xx);
      as_4xx = omega (arith, one.as_4xx, more.as_4xx);
      as_other = omega (arith, one.as_other, more.as_other);
      bytes = omega (arith, one.bytes, more.bytes);
    }

-- After any responses, from the counters at zero: the total is their number, each status counter the
-- number of those with a status of its hundred, status_5xx the number of those below 200 or above
-- 499, and bytes_out the sum of the body lengths; all modulo 2^64.
pub record_all_lem :
    (rs : List (ℕ × ℕ))
    → ((record_all rs new_stats).total % 2 ^ 64 ≡ length rs % 2 ^ 64)
      × ((record_all rs new_stats).status_2xx % 2 ^ 64 ≡ answered is_2xx rs % 2 ^ 64)
      × ((record_all rs new_stats).status_3xx % 2 ^ 64 ≡ answered is_3xx rs % 2 ^ 64)
      × ((record_all rs new_stats).status_4xx % 2 ^ 64 ≡ answered is_4xx rs % 2 ^ 64)
      × ((record_all rs new_stats).status_5xx % 2 ^ 64 ≡ answered is_other rs % 2 ^ 64)
      × ((record_all rs new_stats).bytes_out % 2 ^ 64 ≡ body_bytes rs % 2 ^ 64)
record_all_lem rs =
    let counts = record_all-Counts rs new_stats in
    (
      omega (arith, counts.total),
      omega (arith, counts.as_2xx),
      omega (arith, counts.as_3xx),
      omega (arith, counts.as_4xx),
      omega (arith, counts.as_other),
      omega (arith, counts.bytes),
    )
