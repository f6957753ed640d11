-- ===== src/Security/Ban.antt =====
-- crates/core/src/security.rs: a ban, from its start to its end, among the checks of all peers.
use ferro_http.Base.{
  ℕ, ◌-◌, ◌≤◌, ◌<◌, ◌≡◌, refl, ap, ◌∙◌, inl, inr, true, false, some, List, [], ◌∷◌, arith,
  Bool-cases, Bytes, bytes_eq, bytes_eq_iff, wrapping_add,
}
use ferro_http.Security.{
  RateLimiter, Entry, allow, deny, find_entry, tick, open_window, count_request, is_stale, check,
}
use ferro_http.Security.Entries.{bytes_eq_refl, bytes_eq-ne, set_entry_self}
use ferro_http.Security.Window.{allowed, tick_banned, check_tracked, check_kept, check-config}

-- The limiter after these checks, each a peer and a time.
unfoldable pub checked : RateLimiter → List (Bytes × ℕ) → RateLimiter
checked l [] = l
checked l ((from, now) ∷ es) = checked (check from now l).0 es

-- All the times are before this one.
abbrev pub Before : ℕ → List (Bytes × ℕ) → Type 0
Before end [] = Unit
Before end ((from, now) ∷ es) = (now < end) × Before end es

check_banned :
    (peer : Bytes) (now : ℕ) (l : RateLimiter) (e : Entry)
    → l.config.enabled ≡ true
    → find_entry peer l.entries ≡ some e
    → now < e.banned_until
    → check peer now l ≡ (l, deny (e.banned_until - now))
check_banned peer now l e on found banned =
    rw
      (
        check_tracked peer now l e on found,
        tick_banned l.config e now banned,
        set_entry_self peer e l.entries found,
      )
      refl

banned_live :
    (l : RateLimiter) (now : ℕ) (e : Entry) → now < e.banned_until → is_stale l.config now e ≡ false
unfolding is_stale
banned_live l now e banned = ground (arith, banned)

-- The end of a ban opens a window, in which the request counts as the first.
tick_ended :
    (l : RateLimiter) (now : ℕ) (e : Entry)
    → 0 < e.banned_until
    → e.banned_until ≤ now
    → 0 < l.config.requests
    → (tick l.config now e).1 ≡ allow
unfolding tick open_window count_request wrapping_add
tick_ended l now e ban ended some_requests = ground (arith, ban, ended, some_requests)

ban_kept :
    (peer : Bytes) (e : Entry) (es : List (Bytes × ℕ)) (l : RateLimiter)
    → l.config.enabled ≡ true
    → find_entry peer l.entries ≡ some e
    → Before e.banned_until es
    → (allowed peer l es ≡ 0)
      × (find_entry peer (checked l es).entries ≡ some e)
      × ((checked l es).config ≡ l.config)
unfolding allowed checked
ban_kept peer e [] l on found times = (refl, found, refl)
ban_kept peer e ((from, now) ∷ es) l on found (before, times) =
    elim (Bool-cases (bytes_eq from peer)) [
      | inl same ↦
          let (none_allowed, found', set) = ban_kept peer e es l on found times in
          let denied = check_banned peer now l e on found before in
          rw ((bytes_eq_iff from peer).0 same) (
            rw (bytes_eq_refl peer, denied) (omega (arith, none_allowed)),
            ap (λ k. find_entry peer (checked k.0 es).entries) denied ∙ found',
            ap (λ k. (checked k.0 es).config) denied ∙ set,
          )
      | inr other ↦
          let (none_allowed, found', set) =
            ban_kept peer e es (check from now l).0
              (ap (λ c. c.enabled) (check-config from now l) ∙ on)
              (check_kept peer now e from l (bytes_eq-ne from peer other) found
                (banned_live l now e before))
              times in
          rw other (omega (arith, none_allowed), found', set ∙ check-config from now l)
    ]

-- Where limiting is enabled and a peer is banned, and all peers make any requests, the peer itself
-- among them, before the ban ends: none of the peer's is allowed; one more before the end is denied
-- with the seconds to that same end; and one after the end is allowed, if the limit is not zero.
pub checked_banned :
    (peer : Bytes) (e : Entry) (es : List (Bytes × ℕ)) (l : RateLimiter) (during after : ℕ)
    → l.config.enabled ≡ true
    → 0 < l.config.requests
    → find_entry peer l.entries ≡ some e
    → Before e.banned_until es
    → during < e.banned_until
    → e.banned_until ≤ after
    → (allowed peer l es ≡ 0)
      × ((check peer during (checked l es)).1 ≡ deny (e.banned_until - during))
      × ((check peer after (checked l es)).1 ≡ allow)
checked_banned peer e es l during after on some_requests found times before ended =
    let (none_allowed, kept, set) = ban_kept peer e es l on found times in
    let on' : (checked l es).config.enabled ≡ true = ap (λ c. c.enabled) set ∙ on in
    (
      none_allowed,
      ap (λ c. c.1) (check_banned peer during (checked l es) e on' kept before),
      ap (λ c. c.1) (check_tracked peer after (checked l es) e on' kept)
          ∙ tick_ended (checked l es) after e (omega (arith, before)) ended (rw set some_requests),
    )
