-- ===== src/Tests/Limits.antt =====
-- Runs of the rate limiter.
use ferro_http.Base.{
  ℕ, ◌≤◌, ◌≡◌, refl, true, none, some, List, [], ◌∷◌, arith, Bytes, bytes_eq, wrapping_add,
}
use ferro_http.Security.{
  RateLimitConfig, RateLimiter, new_limiter, Entry, allow, deny, find_entry, set_entry, tick,
  open_window, count_request, check, check_on, track, make_room,
}
use ferro_http.Security.Window.{allowed}
use ferro_http.Security.Limit.{allowed_fresh}
use ferro_http.Security.Capacity.{IsValid, check-IsValid}
use ferro_http.Security.Ban.{checked, checked_banned}

abbrev peer_a : Bytes
peer_a = 1 ∷ []

abbrev peer_b : Bytes
peer_b = 2 ∷ []

-- Two requests in a minute, and a ban of five.
abbrev strict : RateLimitConfig
strict = record { enabled = true; requests = 2; window_secs = 60; ban_secs = 300 }

abbrev arrivals : List (Bytes × ℕ)
arrivals = (peer_b, 1000) ∷ (peer_a, 1001) ∷ (peer_a, 1002) ∷ (peer_a, 1003) ∷ []

allowed-arrivals : allowed peer_a (new_limiter strict) ((peer_a, 1000) ∷ arrivals) ≡ 2
unfolding allowed check check_on track make_room tick open_window count_request find_entry set_entry
    bytes_eq wrapping_add
allowed-arrivals = refl

none_tracked : find_entry peer_a (new_limiter strict).entries ≡ none
unfolding find_entry
none_tracked = refl

allowed_fresh_example : allowed peer_a (new_limiter strict) ((peer_a, 1000) ∷ arrivals) ≤ 2
allowed_fresh_example =
    allowed_fresh peer_a strict 1000 60 refl (omega arith) (omega arith) (omega arith) (omega arith)
      arrivals (new_limiter strict) refl (omega arith)
      (
        omega arith,
        omega arith,
        (omega arith, omega arith, (omega arith, omega arith, (omega arith, omega arith, tt))),
      )
      none_tracked (omega arith)

abbrev banned_entry : Entry
banned_entry = record { window_start = 1000; count = 3; banned_until = 1303 }

abbrev banning : RateLimiter
banning = record { config = strict; entries = (peer_a, banned_entry) ∷ []; last_evict = 0 }

find-banned : find_entry peer_a banning.entries ≡ some banned_entry
unfolding find_entry bytes_eq
find-banned = refl

-- The checks of two peers during the ban.
abbrev meanwhile : List (Bytes × ℕ)
meanwhile = (peer_a, 1010) ∷ (peer_b, 1020) ∷ (peer_a, 1090) ∷ []

checked_banned_example :
    (allowed peer_a banning meanwhile ≡ 0)
    × ((check peer_a 1100 (checked banning meanwhile)).1 ≡ deny 203)
    × ((check peer_a 1303 (checked banning meanwhile)).1 ≡ allow)
checked_banned_example =
    checked_banned peer_a banned_entry meanwhile banning 1100 1303 refl (omega arith) find-banned
      (omega arith, (omega arith, (omega arith, tt))) (omega arith) (omega arith)

banning-IsValid : IsValid banning
unfolding find_entry
banning-IsValid = record { bounded = omega arith; distinct = (refl, tt) }

check-IsValid_example : IsValid (check peer_b 1100 banning).0
check-IsValid_example = check-IsValid peer_b 1100 banning banning-IsValid
