-- ===== src/Json/Bounds.antt =====
-- crates/core/src/json.rs: what a step of the parser leaves, and that its loops end.
use ferro_http.Base.{
  ℕ, suc, ◌-◌, ◌≤◌, ◌<◌, ◌≡◌, refl, ◌≢◌, inl, inr, Bool, true, false, Option, none, some, [], ◌∷◌,
  arith, if◌then◌else◌, Bool-cases, length, length-drop, Bytes, is_empty,
}
use ferro_http.Json.{
  JsonErrorKind, Parser, Reply, ok, err, out_of_fuel, ◌>>=◌, some_or, peek, peek_of, at_byte,
  at_byte_of, advance, expect, skip_ws, skip_ws_from,
}

-- The step has enough fuel, and where it succeeds at most so many bytes are left.
abbrev pub Ends : {A : Type 0} → ℕ → Reply A → Type 0
Ends k (ok a q) = length q.rest ≤ k
Ends k (err e) = Unit
Ends k out_of_fuel = ⊥

pub Ends-ne-out_of_fuel : {A : Type 0} (k : ℕ) (r : Reply A) → Ends k r → r ≢ out_of_fuel
Ends-ne-out_of_fuel k (ok a q) e = λ h. cc
Ends-ne-out_of_fuel k (err x) e = λ h. cc
Ends-ne-out_of_fuel k out_of_fuel e = λ h. absurd e

pub >>=-Ends :
    {A B : Type 0} (k j : ℕ) (r : Reply A) (next : A × Parser → Reply B)
    → Ends k r
    → ((a : A) (q : Parser) → length q.rest ≤ k → Ends j (next (a, q)))
    → Ends j (r >>= next)
>>=-Ends k j (ok a q) next e later = later a q e
>>=-Ends k j (err x) next e later = tt
>>=-Ends k j out_of_fuel next e later = absurd e

pub some_or-Ends :
    {A : Type 0} (o : Option A) (kind : JsonErrorKind) (p : Parser)
    → Ends (length p.rest) (some_or o kind p)
some_or-Ends none kind p = tt
some_or-Ends (some a) kind p = omega arith

-- A byte to look at is a byte that can be passed.
pub peek-Ends :
    (kind : JsonErrorKind) (p : Parser) {B : Type 0} (j : ℕ) (next : ℕ × Parser → Reply B)
    → ((b : ℕ) → 0 < length p.rest → Ends j (next (b, p)))
    → Ends j (some_or (peek p) kind p >>= next)
peek-Ends kind p {B = B} j next later = at_rest p.rest later
  where
    at_rest :
        (rest : Bytes)
        → ((b : ℕ) → 0 < length rest → Ends j (next (b, p)))
        → Ends j (some_or (peek_of rest) kind p >>= next)
    at_rest [] more = tt
    at_rest (b ∷ bs) more = more b (omega arith)

at_byte_of_pos : (rest : Bytes) (b : ℕ) → at_byte_of rest b ≡ true → 0 < length rest
at_byte_of_pos [] b h = cc
at_byte_of_pos (c ∷ cs) b h = omega arith

pub at_byte_pos : (p : Parser) (b : ℕ) → at_byte p b ≡ true → 0 < length p.rest
at_byte_pos p b h = at_byte_of_pos p.rest b h

skip_ws_from-le : (pos : ℕ) (bs : Bytes) → length (skip_ws_from pos bs).rest ≤ length bs
unfolding skip_ws_from
skip_ws_from-le pos [] = omega arith
skip_ws_from-le pos (b ∷ bs) = ground (arith, skip_ws_from-le (suc pos) bs)

pub skip_ws-le : (p : Parser) → length (skip_ws p).rest ≤ length p.rest
unfolding skip_ws
skip_ws-le p = skip_ws_from-le p.pos p.rest

pub advance-lt :
    (n : ℕ) (p : Parser) → 0 < n → 0 < length p.rest → length (advance n p).rest < length p.rest
advance-lt n p positive more = omega (arith, length-drop n p.rest)

pub advance-le : (n : ℕ) (p : Parser) → length (advance n p).rest ≤ length p.rest
advance-le n p = omega (arith, length-drop n p.rest)

pub expect-Ends : (b : ℕ) (p : Parser) → Ends (length p.rest - 1) (expect b p)
unfolding expect
expect-Ends b p = elim (Bool-cases (at_byte p b)) [
  | inl here ↦ rw here (omega (arith, length-drop 1 p.rest))
  | inr other ↦
      rw other
        (elim (Bool-cases (is_empty p.rest)) [ inl empty ↦ rw empty tt | inr more ↦ rw more tt ])
]

pub Ends-weaken : {A : Type 0} {k j : ℕ} → k ≤ j → (r : Reply A) → Ends k r → Ends j r
Ends-weaken le (ok a q) e = omega (arith, le, e)
Ends-weaken le (err x) e = tt
Ends-weaken le out_of_fuel e = absurd e

pub if-Ends :
    {A : Type 0} (k : ℕ) (b : Bool) (x y : Reply A)
    → (b ≡ true → Ends k x)
    → (b ≡ false → Ends k y)
    → Ends k (if b then x else y)
if-Ends k true x y yes_case no_case = yes_case refl
if-Ends k false x y yes_case no_case = no_case refl
