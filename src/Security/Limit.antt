-- ===== src/Security/Limit.antt =====
-- crates/core/src/security.rs: the limit on one peer, whatever the other peers do.
use ferro_http.Base.{
  ℕ, ◌+◌, ◌≤◌, ◌<◌, ◌≡◌, refl, ap, ◌∙◌, inl, inr, true, false, none, some, List, [], ◌∷◌, ◌++◌,
  arith, leb, Bool-cases, length, Bytes, bytes_eq, bytes_eq_iff, u64_max,
}
use ferro_http.Security.{
  RateLimitConfig, RateLimiter, Entry, find_entry, tick, is_stale, check, fresh_entry, max_entries,
  track, make_room, check_on,
}
use ferro_http.Security.Entries.{bytes_eq_refl, bytes_eq-ne, find-set_same, find-push_same}
use ferro_http.Security.Window.{
  allowances, allowed, Within, remaining, Counting, tick-Counting, check_tracked, check_kept,
  check-config,
}

Counting-live :
    (c : RateLimitConfig) (start secs now : ℕ) (e : Entry)
    → Counting c start secs e
    → secs ≤ c.window_secs
    → start ≤ now
    → now < start + secs
    → is_stale c now e ≡ false
unfolding is_stale
Counting-live c start secs now e k inside after before =
    ground (arith, k.window, inside, after, before)

-- The check of a peer that is not tracked, in a map with room.
check_new :
    (peer : Bytes) (now : ℕ) (l : RateLimiter)
    → l.config.enabled ≡ true
    → find_entry peer l.entries ≡ none
    → length l.entries < max_entries
    → check peer now l ≡ (
      record l { entries = l.entries ++ (peer, (tick l.config now (fresh_entry now)).0) ∷ [] },
      (tick l.config now (fresh_entry now)).1,
    )
unfolding check check_on track make_room
check_new peer now l on untracked room = rw (on, untracked, room_left) (rw room_left refl)
  where
    room_left : leb max_entries (length l.entries) ≡ false
    room_left = ground (arith, room)

module _ (peer : Bytes) (c : RateLimitConfig) (start secs : ℕ) (on : c.enabled ≡ true)
    (in_window : secs ≤ c.window_secs) (in_ban : secs ≤ c.ban_secs)
    (requests_fit : c.requests < u64_max) (times_fit : start + secs + c.ban_secs ≤ u64_max) where
  counted :
      (e : Entry) (now : ℕ)
      → Counting c start secs e
      → start ≤ now
      → now < start + secs
      → Counting c start secs (tick c now e).0
        × (allowances (tick c now e).1 + remaining c (tick c now e).0 ≤ remaining c e)
  counted = tick-Counting c start secs in_window in_ban requests_fit times_fit

  Counting-fresh : Counting c start secs (fresh_entry start)
  Counting-fresh = record { window = refl; state = inl (refl, omega arith) }

  own_entry :
      (now : ℕ) (l : RateLimiter) (e : Entry)
      → l.config ≡ c
      → find_entry peer l.entries ≡ some e
      → (find_entry peer (check peer now l).0.entries ≡ some (tick c now e).0)
        × ((check peer now l).1 ≡ (tick c now e).1)
  own_entry now l e set found =
      rw (check_tracked peer now l e (ap (λ c. c.enabled) set ∙ on) found, set)
        (find-set_same peer (tick c now e).0 l.entries found, refl)

  -- Every run of checks in the window takes what is left of the peer's entry at most.
  allowed-Counting :
      (es : List (Bytes × ℕ)) (l : RateLimiter) (e : Entry)
      → l.config ≡ c
      → Within start secs es
      → find_entry peer l.entries ≡ some e
      → Counting c start secs e
      → allowed peer l es ≤ remaining c e
  unfolding allowed
  allowed-Counting [] l e set times found k = omega arith
  allowed-Counting ((from, now) ∷ es) l e set (after, before, times) found k =
      elim (Bool-cases (bytes_eq from peer)) [
        | inl same ↦
            let (found', decided) = own_entry now l e set found in
            let (k', less) = counted e now k after before in
            rw ((bytes_eq_iff from peer).0 same, bytes_eq_refl peer, decided)
              (omega (
                arith,
                less,
                allowed-Counting es (check peer now l).0 (tick c now e).0
                    (check-config peer now l ∙ set) times found' k',
              ))
        | inr other ↦ rw other (
            omega (
              arith,
              allowed-Counting es (check from now l).0 e (check-config from now l ∙ set) times
                  (check_kept peer now e from l (bytes_eq-ne from peer other) found
                    (rw set (Counting-live c start secs now e k in_window after before)))
                  k,
            ))
      ]

  -- Where limiting is enabled: of the requests of a peer that was not tracked, in the `secs` seconds
  -- that begin with its first, the limiter allows `requests` at most, whatever the other peers do
  -- between them. The map has room at the first one, `secs` is at most the window and the ban, and
  -- the numbers stay below 2^64.
  pub allowed_fresh :
      (es : List (Bytes × ℕ)) (l : RateLimiter)
      → l.config ≡ c
      → 0 < secs
      → Within start secs es
      → find_entry peer l.entries ≡ none
      → length l.entries < max_entries
      → allowed peer l ((peer, start) ∷ es) ≤ c.requests
  unfolding allowed
  allowed_fresh es l set some_time times untracked room =
      let e = fresh_entry start in
      let k = Counting-fresh in
      let (k', less) = counted e start k (omega arith) (omega (arith, some_time)) in
      rw
        (
          bytes_eq_refl peer,
          check_new peer start l (ap (λ c. c.enabled) set ∙ on) untracked room,
          set,
        )
        (omega (
          arith,
          less,
          allowed-Counting es
              (record {
                config = c;
                entries = l.entries ++ (peer, (tick c start e).0) ∷ [];
                last_evict = l.last_evict;
              })
              (tick c start e).0 refl times
              (find-push_same peer (tick c start e).0 l.entries untracked) k',
        ))
