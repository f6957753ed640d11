-- ===== src/Security/Entries.antt =====
-- crates/core/src/security.rs: the map of the rate limiter's entries.
use ferro_http.Base.{
  ◌≤◌, ◌≡◌, refl, ◌≢◌, Bool, true, false, none, some, [], ◌∷◌, ◌++◌, arith, length, Bytes, bytes_eq,
  bytes_eq_iff, filter,
}
use ferro_http.Security.{Entry, Entries, find_entry, set_entry}

pub bytes_eq_refl : (p : Bytes) → bytes_eq p p ≡ true
bytes_eq_refl p = (bytes_eq_iff p p).1 refl

pub bytes_eq-ne : (p q : Bytes) → bytes_eq p q ≡ false → p ≢ q
bytes_eq-ne p q differ eq = cc ((bytes_eq_iff p q).1 eq, differ)

pub find-set_same :
    (p : Bytes) (e : Entry) (es : Entries) {old : Entry}
    → find_entry p es ≡ some old
    → find_entry p (set_entry p e es) ≡ some e
unfolding find_entry set_entry
find-set_same p e [] h = cc
find-set_same p e ((key, first) ∷ es) {old = old} h =
    ground (arith, find-set_same p e es {old = old}, bytes_eq_refl p)

pub find-set_other :
    (p q : Bytes) (e : Entry) (es : Entries)
    → p ≢ q
    → find_entry q (set_entry p e es) ≡ find_entry q es
unfolding find_entry set_entry
find-set_other p q e [] ne = refl
find-set_other p q e ((key, old) ∷ es) ne =
    ground (arith, find-set_other p q e es ne, bytes_eq_iff key p, bytes_eq_iff key q)

pub set_entry_self :
    (p : Bytes) (e : Entry) (es : Entries) → find_entry p es ≡ some e → set_entry p e es ≡ es
unfolding find_entry set_entry
set_entry_self p e [] h = refl
set_entry_self p e ((key, old) ∷ es) h = ground (arith, set_entry_self p e es)

pub find-push_same :
    (p : Bytes) (e : Entry) (es : Entries)
    → find_entry p es ≡ none
    → find_entry p (es ++ (p, e) ∷ []) ≡ some e
unfolding find_entry
find-push_same p e [] h = rw (bytes_eq_refl p)
find-push_same p e ((key, old) ∷ es) h = ground (arith, find-push_same p e es)

pub find-push_other :
    (p q : Bytes) (e : Entry) (es : Entries)
    → p ≢ q
    → find_entry q (es ++ (p, e) ∷ []) ≡ find_entry q es
unfolding find_entry
find-push_other p q e [] ne = ground (arith, bytes_eq_iff p q)
find-push_other p q e ((key, old) ∷ es) ne = ground (arith, find-push_other p q e es ne)

module _ (keep : Entry → Bool) where
  pub find-filter_kept :
      (q : Bytes) (es : Entries) {e : Entry}
      → find_entry q es ≡ some e
      → keep e ≡ true
      → find_entry q (filter (λ p. keep p.1) es) ≡ some e
  unfolding find_entry
  find-filter_kept q [] h k = cc
  find-filter_kept q ((key, old) ∷ es) {e = e} h k = ground (arith, find-filter_kept q es {e = e})

  pub find-filter-none :
      (q : Bytes) (es : Entries)
      → find_entry q es ≡ none
      → find_entry q (filter (λ p. keep p.1) es) ≡ none
  unfolding find_entry
  find-filter-none q [] h = refl
  find-filter-none q ((key, old) ∷ es) h = ground (arith, find-filter-none q es)

  pub length-filter : (es : Entries) → length (filter (λ p. keep p.1) es) ≤ length es
  length-filter [] = omega arith
  length-filter ((key, e) ∷ es) = ground (arith, length-filter es)

pub length-set_entry :
    (p : Bytes) (e : Entry) (es : Entries) → length (set_entry p e es) ≡ length es
unfolding set_entry
length-set_entry p e [] = refl
length-set_entry p e ((key, old) ∷ es) = ground (arith, length-set_entry p e es)
