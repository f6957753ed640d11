-- ===== src/Base/Splitting.antt =====
-- Laws of `split`.
use Prim.Native.Nat.{ℕ}
use mathlib.Core.Path.{◌≡◌, refl}
use mathlib.Core.Logic.{inl, inr}
use mathlib.Core.List.{List, [], ◌∷◌, ◌++◌}
use native.Mathlib.Omega.{arith}
use ferro_http.Base.Tests.{◌==◌, Bool-cases}
use ferro_http.Base.ByteStrings.{Bytes}
use ferro_http.Base.Text.{split}

pub split-cons :
    (d : ℕ) (p : Bytes) → (first : Bytes) × (rest : List Bytes) × (split d p ≡ first ∷ rest)
unfolding split
split-cons d [] = ([], [], refl)
split-cons d (c ∷ p) = elim (Bool-cases (c == d)) [
  | inl same ↦ rw same ([], split d p, refl)
  | inr other ↦ let (first, rest, eq) = split-cons d p in rw (other, eq) (c ∷ first, rest, refl)
]

pub split-append : (d : ℕ) (a b : Bytes) → split d (a ++ d ∷ b) ≡ split d a ++ split d b
unfolding split
split-append d [] b = ground arith
split-append d (c ∷ a) b = elim (Bool-cases (c == d)) [
  | inl same ↦ rw same (rw (split-append d a b) refl)
  | inr other ↦
      let (first, rest, eq) = split-cons d a in rw other (rw (split-append d a b, eq) refl)
]
