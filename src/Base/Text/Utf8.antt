-- ===== src/Base/Text/Utf8.antt =====
-- `core::str::from_utf8`: valid text begins with one whole character.
use ferro_http.Base.Text.{utf8_lead, utf8_from, utf8_valid}
use ferro_http.Base.Tests.{if◌then◌else◌, ◌==◌, leb, Bool-cases}
use ferro_http.Base.ByteStrings.{Bytes, within, all}
use ferro_http.Base.Lists.{length, take, drop}
use Prim.Native.Nat.{ℕ, zero, suc, ◌≤◌, ◌<◌}
use mathlib.Core.Logic.{◌⊎◌, inl, inr}
use mathlib.Core.Path.{◌≡◌, refl}
use mathlib.Core.Bool.{Bool, true, false, ◌&&◌, false≢true}
use mathlib.Core.Option.{none, some}
use mathlib.Core.List.{[], ◌∷◌}
use native.Mathlib.Omega.{arith}

pub record Whole (n : ℕ) (cs : Bytes) : Type 0 where
  pub fits : n ≤ length cs
  pub high : all (leb 0x80) (take n cs) ≡ true
  pub rest : utf8_valid (drop n cs) ≡ true

pub both_true : (a b : Bool) → (a && b) ≡ true → (a ≡ true) × (b ≡ true)
both_true true true h = (refl, refl)
both_true true false h = cc
both_true false b h = cc

pub true_both : {a b : Bool} → a ≡ true → b ≡ true → (a && b) ≡ true
true_both {a = true} {b = b} h h' = h'
true_both {a = false} {b = b} h h' = cc

within_high : (lo hi c : ℕ) → 0x80 ≤ lo → within lo hi c ≡ true → leb 0x80 c ≡ true
within_high lo hi c le h = ground (arith, h)

-- The continuation bytes that are still due are there, and valid text follows them.
continuation :
    (n lo hi : ℕ) (cs : Bytes)
    → 0x80 ≤ lo
    → utf8_from n lo hi cs ≡ true
    → Whole n cs × (utf8_from n lo hi (take n cs) ≡ true)
unfolding utf8_from utf8_valid
continuation zero lo hi [] le h = (record { fits = omega arith; high = refl; rest = refl }, refl)
continuation zero lo hi (c ∷ cs) le h = (record { fits = omega arith; high = refl; rest = h }, refl)
continuation (suc n) lo hi [] le h = cc
continuation (suc n) lo hi (c ∷ cs) le h =
    let (here, later) = both_true (within lo hi c) (utf8_from n 0x80 0xBF cs) h in
    let (w, t) = continuation n 0x80 0xBF cs (omega arith) later in
    (
      record {
        fits = omega (arith, w.fits);
        high = true_both (within_high lo hi c le here) w.high;
        rest = w.rest;
      },
      true_both here t,
    )

-- The continuation bytes of the character that this byte leads.
abbrev pub continuations : ℕ → ℕ
continuations c = if leb c 0xDF then 1 else if leb c 0xEF then 2 else 3

-- What a lead byte above ASCII promises.
record Lead (c : ℕ) : Type 0 where
  lo : ℕ
  hi : ℕ
  leads : utf8_lead c ≡ some (continuations c, lo, hi)
  low_bound : 0x80 ≤ lo
  least : 0xC2 ≤ c
  most : c ≤ 0xF4

promised :
    (c n l h : ℕ)
    → utf8_lead c ≡ some (n, l, h)
    → 0x80 ≤ l
    → 0xC2 ≤ c
    → c ≤ 0xF4
    → n ≡ continuations c
    → (utf8_lead c ≡ none) ⊎ Lead c
promised c n l h e bound from upto count =
    inr (record {
      lo = l;
      hi = h;
      leads = rw count at e;
      low_bound = bound;
      least = from;
      most = upto;
    })

first_byte_cases : (c : ℕ) → 0x80 ≤ c → (utf8_lead c ≡ none) ⊎ Lead c
unfolding utf8_lead
first_byte_cases c high = elim (Bool-cases (within 0xC2 0xDF c)) [
  | inl a ↦
      promised c 1 0x80 0xBF (rw (z, a)) (omega arith) (ground (arith, a)) (ground (arith, a))
        (ground (arith, a))
  | inr a ↦ elim (Bool-cases (c == 0xE0)) [
    | inl b ↦
        promised c 2 0xA0 0xBF (rw (z, a, b)) (omega arith) (ground (arith, b)) (ground (arith, b))
          (ground (arith, b))
    | inr b ↦ elim (Bool-cases (c == 0xED)) [
      | inl d ↦
          promised c 2 0x80 0x9F (rw (z, a, b, d)) (omega arith) (ground (arith, d))
            (ground (arith, d)) (ground (arith, d))
      | inr d ↦ elim (Bool-cases (within 0xE1 0xEF c)) [
        | inl e ↦
            promised c 2 0x80 0xBF (rw (z, a, b, d, e)) (omega arith) (ground (arith, e))
              (ground (arith, e)) (ground (arith, e))
        | inr e ↦ elim (Bool-cases (c == 0xF0)) [
          | inl f ↦
              promised c 3 0x90 0xBF (rw (z, a, b, d, e, f)) (omega arith) (ground (arith, f))
                (ground (arith, f)) (ground (arith, f))
          | inr f ↦ elim (Bool-cases (within 0xF1 0xF3 c)) [
            | inl g ↦
                promised c 3 0x80 0xBF (rw (z, a, b, d, e, f, g)) (omega arith) (ground (arith, g))
                  (ground (arith, g)) (ground (arith, g))
            | inr g ↦ elim (Bool-cases (c == 0xF4)) [
              | inl k ↦
                  promised c 3 0x80 0x8F (rw (z, a, b, d, e, f, g, k)) (omega arith)
                    (ground (arith, k)) (ground (arith, k)) (ground (arith, k))
              | inr k ↦ inl (rw (z, a, b, d, e, f, g, k) refl)
            ]
          ]
        ]
      ]
    ]
  ]
]
  where
    z : leb c 0x7F ≡ false
    z = ground (arith, high)

-- Valid text that does not begin with an ASCII byte begins with a lead byte and what it promises.
pub character :
    (c : ℕ) (cs : Bytes)
    → 0x80 ≤ c
    → utf8_valid (c ∷ cs) ≡ true
    → Whole (continuations c) cs
      × (utf8_valid (c ∷ take (continuations c) cs) ≡ true)
      × (0xC2 ≤ c)
      × (c ≤ 0xF4)
unfolding utf8_valid utf8_from
character c cs high valid = elim (first_byte_cases c high) [
  | inl unknown ↦ absurd (false≢true (rw (unknown, utf8_from) at valid))
  | inr l ↦
      let (w, t) =
        continuation (continuations c) l.lo l.hi cs l.low_bound
          (rw (l.leads, utf8_from) at valid) in
      (w, rw (l.leads, utf8_from) t, l.least, l.most)
]

low_lead : (c : ℕ) → c < 0x80 → utf8_lead c ≡ some (0, 0, 0)
unfolding utf8_lead
low_lead c low = rw small
  where
    small : leb c 0x7F ≡ true
    small = ground (arith, low)

pub ascii : (c : ℕ) (cs : Bytes) → c < 0x80 → utf8_valid (c ∷ cs) ≡ utf8_valid cs
unfolding utf8_valid utf8_from
ascii c cs low = rw (low_lead c low, utf8_from) refl
