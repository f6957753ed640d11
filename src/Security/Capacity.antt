-- ===== src/Security/Capacity.antt =====
-- crates/core/src/security.rs: the size of the map, its keys, and the ban.
use ferro_http.Base.{
  ℕ, ◌≤◌, ◌≡◌, refl, sym, ◌∙◌, inl, inr, Bool, true, false, not, Option, none, some, [], ◌∷◌, ◌++◌,
  arith, leb, if◌then◌else◌, Bool-cases, length, length-append, Bytes, bytes_eq, filter,
}
use ferro_http.Security.{
  RateLimiter, Entry, Entries, Decision, find_entry, set_entry, tick, fresh_entry, max_entries,
  is_stale, evict_expired, track, make_room, check_on, check,
}
use ferro_http.Security.Entries.{
  bytes_eq-ne, find-filter-none, length-filter, length-set_entry, find-push_other,
}

-- Each peer stands in the map once.
abbrev pub Distinct : Entries → Type 0
Distinct [] = Unit
Distinct ((key, e) ∷ es) = (find_entry key es ≡ none) × Distinct es

-- The map is within its bound, and a map.
pub record IsValid (l : RateLimiter) : Type 0 where
  pub bounded : length l.entries ≤ max_entries
  pub distinct : Distinct l.entries

find-set_none :
    (q p : Bytes) (e : Entry) (es : Entries)
    → find_entry q es ≡ none
    → find_entry q (set_entry p e es) ≡ none
unfolding find_entry set_entry
find-set_none q p e [] h = refl
find-set_none q p e ((key, old) ∷ es) h = ground (arith, find-set_none q p e es)

set_entry-Distinct :
    (p : Bytes) (e : Entry) (es : Entries) → Distinct es → Distinct (set_entry p e es)
unfolding set_entry
set_entry-Distinct p e [] d = tt
set_entry-Distinct p e ((key, old) ∷ es) (new, d) = elim (Bool-cases (bytes_eq key p)) [
  | inl same ↦ rw same (new, d)
  | inr other ↦ rw other (find-set_none key p e es new, set_entry-Distinct p e es d)
]

filter-Distinct :
    (keep : Entry → Bool) (es : Entries) → Distinct es → Distinct (filter (λ p. keep p.1) es)
filter-Distinct keep [] d = tt
filter-Distinct keep ((key, e) ∷ es) (new, d) = elim (Bool-cases (keep e)) [
  | inl kept ↦ rw kept (find-filter-none keep key es new, filter-Distinct keep es d)
  | inr gone ↦ rw gone (filter-Distinct keep es d)
]

find_cons_none :
    (p key : Bytes) (e : Entry) (es : Entries)
    → find_entry p ((key, e) ∷ es) ≡ none
    → (bytes_eq key p ≡ false) × (find_entry p es ≡ none)
unfolding find_entry
find_cons_none p key e es h = ground arith

push-Distinct :
    (p : Bytes) (e : Entry) (es : Entries)
    → find_entry p es ≡ none
    → Distinct es
    → Distinct (es ++ (p, e) ∷ [])
unfolding find_entry
push-Distinct p e [] absent d = (refl, tt)
push-Distinct p e ((key, old) ∷ es) absent (new, d) =
    let (differ, absent') = find_cons_none p key old es absent in
    (
      find-push_other p key e es (λ eq. bytes_eq-ne key p differ (sym eq)) ∙ new,
      push-Distinct p e es absent' d,
    )

make_room-IsValid : (now : ℕ) (l : RateLimiter) → IsValid l → IsValid (make_room now l)
unfolding make_room evict_expired
make_room-IsValid now l v = elim (Bool-cases (leb max_entries (length l.entries))) [
  | inl full ↦ elim (Bool-cases (leb now l.last_evict)) [
    | inl early ↦ rw full (rw early v)
    | inr due ↦ rw full (rw due (swept v))
  ]
  | inr room ↦ rw room v
]
  where
    swept :
        IsValid l
        → IsValid (record l {
          entries = filter (λ p. not (is_stale l.config now p.1)) l.entries;
          last_evict = now;
        })
    swept v = record {
      bounded =
          omega (arith, v.bounded, length-filter (λ e. not (is_stale l.config now e)) l.entries);
      distinct = filter-Distinct (λ e. not (is_stale l.config now e)) l.entries v.distinct;
    }

make_room_absent :
    (peer : Bytes) (now : ℕ) (l : RateLimiter)
    → find_entry peer l.entries ≡ none
    → find_entry peer (make_room now l).entries ≡ none
unfolding make_room evict_expired
make_room_absent peer now l absent =
    ground
      (arith, absent, find-filter-none (λ e. not (is_stale l.config now e)) peer l.entries absent)

track-IsValid :
    (peer : Bytes) (now : ℕ) (l : RateLimiter)
    → find_entry peer l.entries ≡ none
    → IsValid l
    → IsValid (track peer now l).0
unfolding track
track-IsValid peer now l absent v = elim (Bool-cases (leb max_entries (length l.entries))) [
  | inl full ↦ rw full v
  | inr room ↦ rw room (record {
    bounded = pushed (tick l.config now (fresh_entry now)).0 room;
    distinct =
        push-Distinct peer (tick l.config now (fresh_entry now)).0 l.entries absent v.distinct;
  })
]
  where
    pushed :
        (e : Entry)
        → leb max_entries (length l.entries) ≡ false
        → length (l.entries ++ (peer, e) ∷ []) ≤ max_entries
    pushed e room = rw (length-append l.entries ((peer, e) ∷ [])) (ground (arith, room))

check_on-IsValid :
    (peer : Bytes) (now : ℕ) (l : RateLimiter) (at : Option Entry)
    → find_entry peer l.entries ≡ at
    → IsValid l
    → IsValid (check_on peer now l at).0
unfolding check_on
check_on-IsValid peer now l none absent v =
    track-IsValid peer now (make_room now l) (make_room_absent peer now l absent)
      (make_room-IsValid now l v)
check_on-IsValid peer now l (some e) found v = record {
  bounded = rw (length-set_entry peer (tick l.config now e).0 l.entries) v.bounded;
  distinct = set_entry-Distinct peer (tick l.config now e).0 l.entries v.distinct;
}

either-IsValid :
    (b : Bool) (x y : RateLimiter × Decision)
    → IsValid x.0
    → IsValid y.0
    → IsValid (if b then x else y).0
either-IsValid true x y v w = v
either-IsValid false x y v w = w

-- A check keeps the map within its bound, with each peer in it once.
pub check-IsValid :
    (peer : Bytes) (now : ℕ) (l : RateLimiter) → IsValid l → IsValid (check peer now l).0
unfolding check
check-IsValid peer now l v =
    either-IsValid l.config.enabled _ _
      (check_on-IsValid peer now l (find_entry peer l.entries) refl v) v
