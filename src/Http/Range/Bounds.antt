-- ===== src/Http/Range/Bounds.antt =====
-- crates/core/src/http/conditional.rs: a range lies inside the body.
use ferro_http.Http.Request.{Request, header}
use ferro_http.Base.{
  ℕ, zero, suc, ◌+◌, ◌-◌, ◌≤◌, ◌<◌, min, ◌≡◌, refl, ap, inl, inr, ◌||◌, Option, none, some, [], ◌∷◌,
  ◌++◌, arith, ltb, leb, ◌==◌, if◌then◌else◌, Bool-cases, length, take, drop, length-take,
  length-drop, take-append-drop, Bytes, codes, is_empty, any, u64_max, strip_prefix, split_once,
  trim, parse_uint,
}
use ferro_http.Http.Response.{Response}
use ferro_http.Http.Range.{
  RangeOutcome, satisfiable, unsatisfiable, suffix_range, range_from, range_of, parse_spec,
  parse_single_range, partial_content, range_response, apply_range,
}

-- The range is not empty and ends inside that many bytes.
abbrev pub InRange : ℕ → Option RangeOutcome → Type 0
InRange len (some (satisfiable start end)) = (start ≤ end) × (end < len)
InRange len _ = Unit

suffix_range-InRange : (last : Bytes) (len : ℕ) → InRange len (suffix_range last len)
unfolding suffix_range
suffix_range-InRange last len = on_number (parse_uint u64_max last)
  where
    on_number :
        (n : Option ℕ)
        → InRange len (elim n [
          | none ↦ none
          | some n ↦
              if n == 0 || len == 0
              then some unsatisfiable
              else some (satisfiable (len - min n len) (len - 1))
        ])
    on_number none = tt
    on_number (some n) = elim (Bool-cases (n == 0 || len == 0)) [
      | inl empty ↦ rw empty tt
      | inr some_bytes ↦ rw some_bytes (ground (arith, some_bytes))
    ]

range_from-InRange :
    (start : ℕ) (last : Bytes) (len : ℕ) → start < len → InRange len (range_from start last len)
unfolding range_from
range_from-InRange start last len inside = elim (Bool-cases (is_empty last)) [
  | inl open_end ↦ rw open_end (omega (arith, inside), omega (arith, inside))
  | inr closed ↦ rw closed (on_number (parse_uint u64_max last))
]
  where
    on_number :
        (n : Option ℕ)
        → InRange len (elim n [
          | none ↦ none
          | some requested ↦
              if ltb requested start
              then some unsatisfiable
              else some (satisfiable start (min requested (len - 1)))
        ])
    on_number none = tt
    on_number (some requested) = elim (Bool-cases (ltb requested start)) [
      | inl before ↦ rw before tt
      | inr after ↦ rw after (ground (arith, after, inside))
    ]

range_of-InRange : (first last : Bytes) (len : ℕ) → InRange len (range_of first last len)
unfolding range_of
range_of-InRange first last len = elim (Bool-cases (is_empty first)) [
  | inl suffix ↦ rw suffix (suffix_range-InRange last len)
  | inr begun ↦ rw begun (on_number (parse_uint u64_max first))
]
  where
    on_number :
        (n : Option ℕ)
        → InRange len (elim n [
          | none ↦ none
          | some start ↦ if leb len start then some unsatisfiable else range_from start last len
        ])
    on_number none = tt
    on_number (some start) = elim (Bool-cases (leb len start)) [
      | inl past ↦ rw past tt
      | inr inside ↦ rw inside (range_from-InRange start last len (ground (arith, inside)))
    ]

parse_spec-InRange : (spec : Bytes) (len : ℕ) → InRange len (parse_spec spec len)
unfolding parse_spec
parse_spec-InRange spec len = elim (Bool-cases (any (λ b. b == b',') spec)) [
  | inl many ↦ rw many tt
  | inr one ↦ rw one (on_parts (split_once b'-' spec))
]
  where
    on_parts :
        (parts : Option (Bytes × Bytes))
        → InRange len (elim parts [
          | none ↦ none
          | some (first, last) ↦ range_of (trim first) (trim last) len
        ])
    on_parts none = tt
    on_parts (some (first, last)) = range_of-InRange (trim first) (trim last) len

-- A range that can be served is not empty and ends inside the body, for every header value and
-- every length.
pub parse_single_range-InRange :
    (value : Bytes) (len : ℕ) → InRange len (parse_single_range value len)
unfolding parse_single_range
parse_single_range-InRange value len = on_spec (strip_prefix value (codes "bytes="))
  where
    on_spec :
        (spec : Option Bytes)
        → InRange len (elim spec [ none ↦ none | some s ↦ parse_spec (trim s) len ])
    on_spec none = tt
    on_spec (some s) = parse_spec-InRange (trim s) len

drop_nil : (n : ℕ) → ◌≡◌ {A = Bytes} (drop n []) []
drop_nil zero = refl
drop_nil (suc n) = refl

take_nil : (n : ℕ) → ◌≡◌ {A = Bytes} (take n []) []
take_nil zero = refl
take_nil (suc n) = refl

-- Bytes are what stands before a part, the part, and what stands behind it.
three_parts : (m k n : ℕ) (b : Bytes) → n ≡ m + k → take m b ++ (take k (drop m b) ++ drop n b) ≡ b
three_parts zero k n b e = rw (same e) (take-append-drop k b)
  where
    same : n ≡ 0 + k → n ≡ k
    same e = omega (arith, e)
three_parts (suc m) k n [] e = rw (take_nil k, drop_nil n) refl
three_parts (suc m) k zero (x ∷ b) e = absurd (omega (arith, e))
three_parts (suc m) k (suc n) (x ∷ b) e = ap (◌∷◌ x) (three_parts m k n b (omega (arith, e)))

apply_range-partial_content :
    (request : Request) (r : Response) (value : Bytes) (start end : ℕ)
    → header request (codes "range") ≡ some value
    → parse_single_range value (length r.body) ≡ some (satisfiable start end)
    → apply_range request r ≡ partial_content r start end
unfolding apply_range range_response
apply_range-partial_content request r value start end asked parsed =
    rw (asked, apply_range) (rw parsed refl)

-- Where a request has a Range that can be served, the response's body is the part of the full body
-- from the range's start to its end, both included, and as long as the range says.
pub apply_range_lem :
    (request : Request) (r : Response) (value : Bytes) (start end : ℕ)
    → header request (codes "range") ≡ some value
    → parse_single_range value (length r.body) ≡ some (satisfiable start end)
    → (take start r.body ++ ((apply_range request r).body ++ drop (end + 1) r.body) ≡ r.body)
      × (length (apply_range request r).body ≡ end + 1 - start)
unfolding partial_content
apply_range_lem request r value start end asked parsed =
    rw (apply_range-partial_content request r value start end asked parsed) (
      three_parts start (end + 1 - start) (end + 1) r.body (omega (arith, inside.0)),
      rw (length-take (end + 1 - start) (drop start r.body), length-drop start r.body)
          (omega (arith, inside.0, inside.1)),
    )
  where
    inside : (start ≤ end) × (end < length r.body)
    inside = rw parsed at (parse_single_range-InRange value (length r.body))
