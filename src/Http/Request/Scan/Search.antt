-- ===== src/Http/Request/Scan/Search.antt =====
-- What a search of the parser finds, and that bytes behind the place found change nothing.
use ferro_http.Base.{
  ℕ, ◌+◌, ◌≤◌, ◌≡◌, refl, inl, inr, true, false, some, [], ◌∷◌, ◌++◌, arith, Bool-cases,
  Option-cases, length, drop, length-append, length-drop, drop-append, Bytes, is_empty, starts_with,
}
use ferro_http.Http.Request.Scan.{window_position, find_subslice, crlf}

pub starts_with-length : (xs n : Bytes) → starts_with xs n ≡ true → length n ≤ length xs
unfolding starts_with
starts_with-length xs [] h = omega arith
starts_with-length [] (c ∷ n) h = cc
starts_with-length (x ∷ xs) (c ∷ n) h = ground (arith, starts_with-length xs n)

pub starts_with-append :
    (xs ys n : Bytes) → length n ≤ length xs → starts_with (xs ++ ys) n ≡ starts_with xs n
unfolding starts_with
starts_with-append [] [] [] h = refl
starts_with-append [] (y ∷ ys) [] h = refl
starts_with-append [] ys (c ∷ n) h = absurd (omega arith)
starts_with-append (x ∷ xs) ys [] h = refl
starts_with-append (x ∷ xs) ys (c ∷ n) h = rw (starts_with-append xs ys n (omega arith))

pub window_position-le :
    (xs n : Bytes) {i : ℕ} → window_position xs n ≡ some i → i + length n ≤ length xs
unfolding window_position
window_position-le [] n h = cc
window_position-le (x ∷ xs) n {i} h = elim (Bool-cases (starts_with (x ∷ xs) n)) [
  | inl here ↦ ground (arith, starts_with-length (x ∷ xs) n here)
  | inr later ↦ elim (Option-cases (window_position xs n)) [
    | inl missed ↦ ground arith
    | inr (j, found) ↦ ground (arith, window_position-le xs n found)
  ]
]

window_position-append :
    (xs ys n : Bytes) {i : ℕ}
    → window_position xs n ≡ some i
    → window_position (xs ++ ys) n ≡ some i
unfolding window_position
window_position-append [] ys n h = cc
window_position-append (x ∷ xs) ys n {i} h = elim (Bool-cases (starts_with (x ∷ xs) n)) [
  | inl here ↦ ground (arith, starts_with-append (x ∷ xs) ys n (starts_with-length (x ∷ xs) n here))
  | inr later ↦ elim (Option-cases (window_position xs n)) [
    | inl missed ↦ ground arith
    | inr (j, found) ↦
        let fits : length n ≤ length (x ∷ xs) = omega (arith, window_position-le xs n found) in
        ground (arith, starts_with-append (x ∷ xs) ys n fits, window_position-append xs ys n found)
  ]
]

find_subslice-window :
    (xs n : Bytes) {i : ℕ}
    → find_subslice xs n ≡ some i
    → (is_empty n ≡ false) × (window_position xs n ≡ some i)
unfolding find_subslice
find_subslice-window xs n h = ground arith

-- A place found leaves room for what was looked for.
pub find_subslice-le :
    (xs n : Bytes) {i : ℕ} → find_subslice xs n ≡ some i → i + length n ≤ length xs
find_subslice-le xs n h = window_position-le xs n (find_subslice-window xs n h).1

-- Bytes that arrive later do not move it.
pub find_subslice-append :
    (xs ys n : Bytes) {i : ℕ} → find_subslice xs n ≡ some i → find_subslice (xs ++ ys) n ≡ some i
unfolding find_subslice
find_subslice-append xs ys n h =
    let (some_byte, found) = find_subslice-window xs n h in
    ground (
      arith,
      some_byte,
      window_position-append xs ys n found,
      window_position-le xs n found,
      length-append xs ys,
    )

-- The same of a CRLF looked for from a position on.
pub find_crlf-le :
    (buf : Bytes) (pos : ℕ) {i : ℕ}
    → find_subslice (drop pos buf) crlf ≡ some i
    → pos + i + 2 ≤ length buf
find_crlf-le buf pos h = omega (arith, find_subslice-le (drop pos buf) crlf h, length-drop pos buf)

pub find_crlf-append :
    (buf more : Bytes) (pos : ℕ) {i : ℕ}
    → find_subslice (drop pos buf) crlf ≡ some i
    → find_subslice (drop pos (buf ++ more)) crlf ≡ some i
find_crlf-append buf more pos h =
    rw (drop-append pos buf more (omega (arith, find_crlf-le buf pos h)))
      (find_subslice-append (drop pos buf) more crlf h)
