-- ===== src/Http/Request/Scan/Found.antt =====
-- What stands at a place found: the needle.
use ferro_http.Base.{
  ℕ, zero, suc, ◌+◌, ◌≡◌, refl, sym, ap, ◌∙◌, inl, inr, true, some, [], ◌∷◌, ◌++◌, arith,
  Bool-cases, Option-cases, length, take, drop, Bytes, starts_with,
}
use Prim.Native.Nat.add
use ferro_http.Http.Request.Scan.{window_position, find_subslice}

take-nil : (j : ℕ) → take {A = ℕ} j [] ≡ []
take-nil zero = refl
take-nil (suc j) = refl

take-add : (m k : ℕ) (xs : Bytes) → take (m + k) xs ≡ take m xs ++ take k (drop m xs)
take-add zero k xs = rw add.zero
take-add (suc m) k [] = rw add.suc (sym (take-nil k))
take-add (suc m) k (x ∷ xs) = rw add.suc (ap (◌∷◌ x) (take-add m k xs))

starts_with-take : (xs n : Bytes) → starts_with xs n ≡ true → take (length n) xs ≡ n
unfolding starts_with
starts_with-take xs [] h = refl
starts_with-take [] (c ∷ n) h = cc
starts_with-take (x ∷ xs) (c ∷ n) h = ground (arith, starts_with-take xs n)

window_position-starts_with :
    (xs n : Bytes) {i : ℕ} → window_position xs n ≡ some i → starts_with (drop i xs) n ≡ true
unfolding window_position
window_position-starts_with [] n h = cc
window_position-starts_with (x ∷ xs) n {i} h = elim (Bool-cases (starts_with (x ∷ xs) n)) [
  | inl here ↦ ground (arith, here)
  | inr later ↦ elim (Option-cases (window_position xs n)) [
    | inl missed ↦ ground arith
    | inr (j, found) ↦ ground (arith, found, window_position-starts_with xs n found)
  ]
]

-- Up to the end of the needle found stand the bytes before it, and the needle.
pub find_subslice-take :
    (xs n : Bytes) {i : ℕ} → find_subslice xs n ≡ some i → take (i + length n) xs ≡ take i xs ++ n
unfolding find_subslice
find_subslice-take xs n {i} h =
    let found : window_position xs n ≡ some i = ground arith in
    take-add i (length n) xs
    ∙ ap (◌++◌ (take i xs))
        (starts_with-take (drop i xs) n (window_position-starts_with xs n found))
