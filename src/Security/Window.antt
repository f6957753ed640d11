-- ===== src/Security/Window.antt =====
-- crates/core/src/security.rs: what the fixed window and the ban promise.
use ferro_http.Base.{
  ℕ, ◌+◌, ◌-◌, ◌^◌, ◌≤◌, ◌<◌, ◌≡◌, refl, ◌∙◌, ◌≢◌, ◌⊎◌, inl, inr, true, false, not, Option, none,
  some, List, [], ◌∷◌, arith, ◌==◌, if◌then◌else◌, lt→ltb, Bytes, within, bytes_eq, u64_max,
  wrapping_add,
}
use ferro_http.Security.{
  RateLimitConfig, RateLimiter, Entry, Decision, allow, deny, find_entry, set_entry, tick,
  open_window, count_request, is_stale, evict_expired, track, make_room, check_on, check,
  fresh_entry,
}
use ferro_http.Security.Entries.{find-set_other, find-push_other, find-filter_kept}

abbrev pub allowances : Decision → ℕ
allowances allow = 1
allowances (deny after) = 0

-- The requests of the peer that are allowed among these, each a peer and a time.
unfoldable pub allowed : Bytes → RateLimiter → List (Bytes × ℕ) → ℕ
allowed peer l [] = 0
allowed peer l ((from, now) ∷ es) =
    (if bytes_eq from peer then allowances (check from now l).1 else 0)
    + allowed peer (check from now l).0 es

-- All the times are in the `secs` seconds that begin at `start`.
abbrev pub Within : ℕ → ℕ → List (Bytes × ℕ) → Type 0
Within start secs [] = Unit
Within start secs ((from, now) ∷ es) = (start ≤ now) × (now < start + secs) × Within start secs es

lt_or_le : (a b : ℕ) → (a + 1 ≤ b) ⊎ (b ≤ a)
lt_or_le a b = ground arith

-- What the entry still allows in its window.
abbrev pub remaining : RateLimitConfig → Entry → ℕ
remaining c e = if e.banned_until == 0 then c.requests - e.count else 0

module _ (c : RateLimitConfig) where
  -- In its window an entry without a ban only counts.
  tick_in_window :
      (e : Entry) (now : ℕ)
      → e.banned_until ≡ 0
      → now - e.window_start < c.window_secs
      → tick c now e ≡ count_request c now e
  unfolding tick open_window
  tick_in_window e now none_yet inside = ground (arith, none_yet, inside)

  wrapping_add_small : (a b : ℕ) → a + b < 2 ^ 64 → wrapping_add a b ≡ a + b
  unfolding wrapping_add
  wrapping_add_small a b h = omega (arith, h)

  -- A ban that has not ended.
  pub tick_banned :
      (e : Entry) (now : ℕ) → now < e.banned_until → tick c now e ≡ (e, deny (e.banned_until - now))
  unfolding tick
  tick_banned e now banned = rw (lt→ltb now e.banned_until banned)

  count_within :
      (e : Entry) (now : ℕ)
      → e.count + 1 ≤ c.requests
      → c.requests < u64_max
      → count_request c now e ≡ (record e { count = e.count + 1 }, allow)
  unfolding count_request
  count_within e now within fit =
      rw (wrapping_add_small e.count 1 (omega (arith, within, fit))) (ground (arith, within))

  count_past :
      (e : Entry) (now : ℕ)
      → e.count ≡ c.requests
      → c.requests < u64_max
      → now + c.ban_secs ≤ u64_max
      → count_request c now e
        ≡ (record e { count = e.count + 1; banned_until = now + c.ban_secs }, deny c.ban_secs)
  unfolding count_request
  count_past e now full fit later =
      rw
        (
          wrapping_add_small e.count 1 (omega (arith, full, fit)),
          wrapping_add_small now c.ban_secs (omega (arith, later)),
        )
        (ground (arith, full))

module _ (c : RateLimitConfig) (start secs : ℕ) where
  -- An entry whose window began at `start`, counting, or banned past the `secs` seconds.
  pub record Counting (e : Entry) : Type 0 where
    pub window : e.window_start ≡ start
    pub state : ((e.banned_until ≡ 0) × (e.count ≤ c.requests)) ⊎ (start + secs ≤ e.banned_until)

  module _ (in_window : secs ≤ c.window_secs) (in_ban : secs ≤ c.ban_secs)
      (requests_fit : c.requests < u64_max) (times_fit : start + secs + c.ban_secs ≤ u64_max) where
    pub tick-Counting :
        (e : Entry) (now : ℕ)
        → Counting e
        → start ≤ now
        → now < start + secs
        → Counting (tick c now e).0
          × (allowances (tick c now e).1 + remaining c (tick c now e).0 ≤ remaining c e)
    tick-Counting e now k after before = by_state k.state
      where
        by_state :
            ((e.banned_until ≡ 0) × (e.count ≤ c.requests)) ⊎ (start + secs ≤ e.banned_until)
            → Counting (tick c now e).0
              × (allowances (tick c now e).1 + remaining c (tick c now e).0 ≤ remaining c e)
        by_state (inl (none_yet, counted)) =
            rw (tick_in_window c e now none_yet (omega (arith, k.window, after, before, in_window)))
              (elim (lt_or_le e.count c.requests) [
                | inl lt ↦ rw (count_within c e now lt requests_fit) (
                  record { window = k.window; state = inl (none_yet, lt) },
                  ground (arith, none_yet, lt),
                )
                | inr ge ↦
                    rw
                      (count_past c e now (omega (arith, ge, counted)) requests_fit
                        (omega (arith, before, times_fit)))
                      (
                        record { window = k.window; state = inr (omega (arith, after, in_ban)) },
                        ground (arith, ge),
                      )
              ])
        by_state (inr banned) =
            rw (tick_banned c e now (omega (arith, banned, before))) (k, omega arith)

make_room-config : (now : ℕ) (l : RateLimiter) → (make_room now l).config ≡ l.config
unfolding make_room evict_expired
make_room-config now l = ground arith

track-config : (from : Bytes) (now : ℕ) (l : RateLimiter) → (track from now l).0.config ≡ l.config
unfolding track
track-config from now l = ground arith

check_on-config :
    (from : Bytes) (now : ℕ) (l : RateLimiter) (found : Option Entry)
    → (check_on from now l found).0.config ≡ l.config
unfolding check_on
check_on-config from now l none = track-config from now (make_room now l) ∙ make_room-config now l
check_on-config from now l (some e) = refl

pub check-config :
    (from : Bytes) (now : ℕ) (l : RateLimiter) → (check from now l).0.config ≡ l.config
unfolding check
check-config from now l = ground (arith, check_on-config from now l (find_entry from l.entries))

pub check_tracked :
    (from : Bytes) (now : ℕ) (l : RateLimiter) (e : Entry)
    → l.config.enabled ≡ true
    → find_entry from l.entries ≡ some e
    → check from now l ≡ (
      record l { entries = set_entry from (tick l.config now e).0 l.entries },
      (tick l.config now e).1,
    )
unfolding check check_on
check_tracked from now l e on found = rw (on, found) refl

module _ (peer : Bytes) (now : ℕ) (e : Entry) where
  -- Making room leaves an entry that is not stale.
  make_room_kept :
      (l : RateLimiter)
      → find_entry peer l.entries ≡ some e
      → is_stale l.config now e ≡ false
      → find_entry peer (make_room now l).entries ≡ some e
  unfolding make_room evict_expired
  make_room_kept l found live =
      ground
        (arith, found, find-filter_kept (λ e. not (is_stale l.config now e)) peer l.entries {e = e})

  track_kept :
      (from : Bytes) (l : RateLimiter)
      → from ≢ peer
      → find_entry peer l.entries ≡ some e
      → find_entry peer (track from now l).0.entries ≡ some e
  unfolding track
  track_kept from l ne found =
      ground (
        arith,
        found,
        find-push_other from peer (tick l.config now (fresh_entry now)).0 l.entries ne,
      )

  check_on_kept :
      (from : Bytes) (l : RateLimiter) (at : Option Entry)
      → from ≢ peer
      → find_entry peer l.entries ≡ some e
      → is_stale l.config now e ≡ false
      → find_entry peer (check_on from now l at).0.entries ≡ some e
  unfolding check_on
  check_on_kept from l none ne found live =
      track_kept from (make_room now l) ne (make_room_kept l found live)
  check_on_kept from l (some old) ne found live =
      find-set_other from peer (tick l.config now old).0 l.entries ne ∙ found

  -- Another peer's check leaves an entry that is not stale.
  pub check_kept :
      (from : Bytes) (l : RateLimiter)
      → from ≢ peer
      → find_entry peer l.entries ≡ some e
      → is_stale l.config now e ≡ false
      → find_entry peer (check from now l).0.entries ≡ some e
  unfolding check
  check_kept from l ne found live =
      ground (arith, found, check_on_kept from l (find_entry from l.entries) ne found live)
