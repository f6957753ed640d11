-- ===== src/Security.antt =====
-- crates/core/src/security.rs: the rate limiter, and its settings of crates/core/src/config.rs.
pub mod Entries
pub mod Window
pub mod Limit
pub mod Capacity
pub mod Ban
use ferro_http.Base.{
  ℕ, zero, suc, ◌+◌, ◌-◌, ◌*◌, ◌/◌, ◌%◌, ◌^◌, ◌≤◌, ◌<◌, min, ◌≡◌, refl, sym, ap, ◌∙◌, ◌≢◌, ◌↔◌, ◌⊎◌,
  inl, inr, Bool, true, false, not, ◌&&◌, ◌||◌, Option, none, some, List, [], ◌∷◌, ◌++◌, map,
  append_assoc, append-nil, arith, ltb, leb, ◌==◌, if◌then◌else◌, ltb→lt, lt→ltb, leb→le, ==_iff,
  Bool-cases, Option-cases, length, get_elem?, get_or, replicate, take, drop, length-append,
  length-take, length-drop, take-append-drop, take-append, drop-append, Bytes, codes, within,
  bytes_eq, bytes_eq_iff, is_empty, all, any, filter, position, find, u64_max, u32_max,
  is_ascii_digit, is_ascii_alphabetic, is_ascii_alphanumeric, eq_ignore_ascii_case, starts_with,
  strip_prefix, split_once, split, utf8_valid, trim, parse_digits, parse_uint, dec_digits,
  print_dec, to_ascii_lowercase, wrapping_add,
}

pub record RateLimitConfig : Type 0 where
  pub enabled : Bool
  pub requests : ℕ
  pub window_secs : ℕ
  pub ban_secs : ℕ

-- `RateLimitConfig::default`
abbrev pub default_rate_limit : RateLimitConfig
default_rate_limit = record { enabled = true; requests = 600; window_secs = 600; ban_secs = 300 }

abbrev pub max_entries : ℕ
max_entries = 100000

pub data Decision : Type 0 where
  allow : Decision
  deny : ℕ → Decision

pub record Entry : Type 0 where
  pub window_start : ℕ
  pub count : ℕ
  pub banned_until : ℕ

-- The map of the source, by peer; each peer stands in it once at most.
abbrev pub Entries : Type 0
Entries = List (Bytes × Entry)

pub record RateLimiter : Type 0 where
  pub config : RateLimitConfig
  pub entries : Entries
  pub last_evict : ℕ

-- `RateLimiter::new`
abbrev pub new_limiter : RateLimitConfig → RateLimiter
new_limiter c = record { config = c; entries = []; last_evict = 0 }

-- `get_mut` of the map, to read.
unfoldable pub find_entry : Bytes → Entries → Option Entry
find_entry peer [] = none
find_entry peer ((key, e) ∷ es) = if bytes_eq key peer then some e else find_entry peer es

-- `get_mut` of the map, to write.
unfoldable pub set_entry : Bytes → Entry → Entries → Entries
set_entry peer e [] = []
set_entry peer e ((key, old) ∷ es) =
    if bytes_eq key peer then (key, e) ∷ es else (key, old) ∷ set_entry peer e es

abbrev pub fresh_entry : ℕ → Entry
fresh_entry now = record { window_start = now; count = 0; banned_until = 0 }

-- The second `if` of `tick`: a fresh window when the old one or a ban has ended.
unfoldable pub open_window : RateLimitConfig → ℕ → Entry → Entry
open_window c now e =
    if not (e.banned_until == 0) || leb c.window_secs (now - e.window_start)
    then fresh_entry now
    else e

-- The rest of `tick`: count the request, and ban past the limit.
unfoldable pub count_request : RateLimitConfig → ℕ → Entry → Entry × Decision
count_request c now e =
    let count = wrapping_add e.count 1 in
    if ltb c.requests count
    then (record e { count = count; banned_until = wrapping_add now c.ban_secs }, deny c.ban_secs)
    else (record e { count = count }, allow)

unfoldable pub tick : RateLimitConfig → ℕ → Entry → Entry × Decision
tick c now e =
    if ltb now e.banned_until
    then (e, deny (e.banned_until - now))
    else count_request c now (open_window c now e)

-- The filter of `evict_expired`.
unfoldable pub is_stale : RateLimitConfig → ℕ → Entry → Bool
is_stale c now e = leb e.banned_until now && leb c.window_secs (now - e.window_start)

unfoldable pub evict_expired : ℕ → RateLimiter → RateLimiter
evict_expired now l = if leb now l.last_evict then l else record l {
  entries = filter (λ p. not (is_stale l.config now p.1)) l.entries;
  last_evict = now;
}

-- The end of `check`, for a peer that was not tracked.
unfoldable pub track : Bytes → ℕ → RateLimiter → RateLimiter × Decision
track peer now l =
    if leb max_entries (length l.entries)
    then (l, allow)
    else let (e, d) = tick l.config now (fresh_entry now) in
      (record l { entries = l.entries ++ (peer, e) ∷ [] }, d)

unfoldable pub make_room : ℕ → RateLimiter → RateLimiter
make_room now l = if leb max_entries (length l.entries) then evict_expired now l else l

-- `check` on the entry of the peer.
unfoldable pub check_on : Bytes → ℕ → RateLimiter → Option Entry → RateLimiter × Decision
check_on peer now l (some e) =
    let (e', d) = tick l.config now e in (record l { entries = set_entry peer e' l.entries }, d)
check_on peer now l none = track peer now (make_room now l)

unfoldable pub check : Bytes → ℕ → RateLimiter → RateLimiter × Decision
check peer now l =
    if l.config.enabled then check_on peer now l (find_entry peer l.entries) else (l, allow)
