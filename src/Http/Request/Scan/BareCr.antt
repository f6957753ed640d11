-- ===== src/Http/Request/Scan/BareCr.antt =====
-- No line of a head without a bare CR holds a CR.
use ferro_http.Base.{
  ℕ, zero, suc, ◌+◌, ◌<◌, ◌≡◌, refl, inl, inr, Bool, false, none, some, List, [], ◌∷◌, ◌++◌, arith,
  ◌==◌, Option-cases, length, take, drop, length-drop, Bytes, any, starts_with, split_once,
}
use ferro_http.Http.Request.Scan.Search.{find_subslice-le}
use ferro_http.Http.Request.Scan.{
  window_position, find_subslice, split_crlf_from, split_crlf, crlf, has_bare_cr, trim_ows_start,
  trim_ows_end, trim_ows,
}

abbrev pub All {ℓ κ} : {A : Type ℓ} → (A → Type κ) → List A → Type κ
All P [] = Unit
All P (x ∷ xs) = P x × All P xs

abbrev pub has_cr : Bytes → Bool
has_cr = any (λ b. b == b'\r')

pub has_cr-split_once :
    (d : ℕ) (xs : Bytes) {a b : Bytes}
    → split_once d xs ≡ some (a, b)
    → has_cr xs ≡ false
    → (has_cr a ≡ false) × (has_cr b ≡ false)
unfolding split_once
has_cr-split_once d [] h e = cc
has_cr-split_once d (x ∷ xs) {a} {b} h e = elim (Option-cases (split_once d xs)) [
  | inl missed ↦ ground (arith, missed)
  | inr ((a', b'), found) ↦ ground (arith, found, has_cr-split_once d xs found)
]

has_cr-trim_ows_start : (xs : Bytes) → has_cr xs ≡ false → has_cr (trim_ows_start xs) ≡ false
unfolding trim_ows_start
has_cr-trim_ows_start [] e = refl
has_cr-trim_ows_start (x ∷ xs) e = ground (arith, has_cr-trim_ows_start xs)

has_cr-trim_ows_end : (xs : Bytes) → has_cr xs ≡ false → has_cr (trim_ows_end xs) ≡ false
unfolding trim_ows_end
has_cr-trim_ows_end [] e = refl
has_cr-trim_ows_end (x ∷ xs) e = ground (arith, has_cr-trim_ows_end xs)

pub has_cr-trim_ows : (xs : Bytes) → has_cr xs ≡ false → has_cr (trim_ows xs) ≡ false
unfolding trim_ows
has_cr-trim_ows xs e = has_cr-trim_ows_end (trim_ows_start xs) (has_cr-trim_ows_start xs e)

-- A CR in front of another byte than LF is bare, so what stands before a CR has no bare one either.
pub has_bare_cr-append :
    (xs ys : Bytes) → has_bare_cr (xs ++ b'\r' ∷ ys) ≡ false → has_bare_cr xs ≡ false
unfolding has_bare_cr
has_bare_cr-append [] ys h = refl
has_bare_cr-append (x ∷ []) ys h = ground arith
has_bare_cr-append (x ∷ y ∷ xs) ys h = ground (arith, has_bare_cr-append (y ∷ xs) ys)

has_bare_cr-drop : (n : ℕ) (xs : Bytes) → has_bare_cr xs ≡ false → has_bare_cr (drop n xs) ≡ false
unfolding has_bare_cr
has_bare_cr-drop zero xs h = h
has_bare_cr-drop (suc n) [] h = refl
has_bare_cr-drop (suc n) (x ∷ xs) h = has_bare_cr-drop n xs (ground arith)

window-has_cr :
    (xs : Bytes) (i : ℕ)
    → has_bare_cr xs ≡ false
    → window_position xs crlf ≡ some i
    → has_cr (take i xs) ≡ false
unfolding has_bare_cr window_position starts_with
window-has_cr [] i h e = cc
window-has_cr (x ∷ xs) zero h e = refl
window-has_cr (x ∷ []) (suc i) h e = ground arith
window-has_cr (x ∷ y ∷ xs) (suc i) h e = ground (arith, window-has_cr (y ∷ xs) i)

no_window-has_cr :
    (xs : Bytes) → has_bare_cr xs ≡ false → window_position xs crlf ≡ none → has_cr xs ≡ false
unfolding has_bare_cr window_position starts_with
no_window-has_cr [] h e = refl
no_window-has_cr (x ∷ []) h e = ground arith
no_window-has_cr (x ∷ y ∷ xs) h e = ground (arith, no_window-has_cr (y ∷ xs))

last_line-has_cr :
    (xs : Bytes) → has_bare_cr xs ≡ false → find_subslice xs crlf ≡ none → has_cr xs ≡ false
unfolding find_subslice
last_line-has_cr [] h e = refl
last_line-has_cr (x ∷ []) h e = unfold has_bare_cr in ground arith
last_line-has_cr (x ∷ y ∷ xs) h e = no_window-has_cr (x ∷ y ∷ xs) h (ground arith)

split_crlf_from-All :
    (f : ℕ) (xs : Bytes)
    → length xs < f
    → has_bare_cr xs ≡ false
    → (ls : List Bytes) × (split_crlf_from f xs ≡ some ls) × All (λ line. has_cr line ≡ false) ls
unfolding split_crlf_from
split_crlf_from-All zero xs enough h = absurd (omega arith)
split_crlf_from-All (suc f) xs enough h = elim (Option-cases (find_subslice xs crlf)) [
  | inl missed ↦ rw (missed, split_crlf_from) (xs ∷ [], refl, (last_line-has_cr xs h missed, tt))
  | inr (i, found) ↦
      let (ls, cut, clean) =
        split_crlf_from-All f (drop (i + 2) xs)
          (omega (arith, length-drop (i + 2) xs, find_subslice-le xs crlf found))
          (has_bare_cr-drop (i + 2) xs h) in
      rw (found, split_crlf_from)
        (
          take i xs ∷ ls,
          rw cut refl,
          (window-has_cr xs i h (unfold find_subslice in ground arith), clean),
        )
]

pub split_crlf-All :
    (block : Bytes)
    → has_bare_cr block ≡ false
    → (ls : List Bytes) × (split_crlf block ≡ some ls) × All (λ line. has_cr line ≡ false) ls
unfolding split_crlf
split_crlf-All block h = split_crlf_from-All (suc (length block)) block (omega arith) h
