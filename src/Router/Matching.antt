-- ===== src/Router/Matching.antt =====
-- crates/core/src/router.rs: what a pattern matches.
use ferro_http.Base.{
  ◌≡◌, refl, sym, ap, ◌∙◌, ◌↔◌, inl, inr, Bool, true, false, not, Option, none, some, List, [], ◌∷◌,
  ◌++◌, append_assoc, append-nil, arith, ◌==◌, if◌then◌else◌, ==_iff, Bool-cases, length, Bytes,
  bytes_eq, bytes_eq_iff, is_empty, filter, split,
}
use ferro_http.Base.Splitting.{split-append}
use ferro_http.Router.{Params, Segment, static, param, split_path, zip_segments, match_segments}

filter-append :
    (keep : Bytes → Bool) (a b : List Bytes) → filter keep (a ++ b) ≡ filter keep a ++ filter keep b
filter-append keep [] b = refl
filter-append keep (x ∷ a) b = elim (Bool-cases (keep x)) [
  | inl kept ↦ rw (kept, filter-append keep a b) refl
  | inr gone ↦ rw (gone, filter-append keep a b) refl
]

-- A slash between two parts of a path separates their segments, so that a slash at either end or
-- next to another one changes nothing.
split_path-append : (a b : Bytes) → split_path (a ++ b'/' ∷ b) ≡ split_path a ++ split_path b
unfolding split_path
split_path-append a b =
    ap (filter (λ s. not (is_empty s))) (split-append b'/' a b)
    ∙ filter-append (λ s. not (is_empty s)) (split b'/' a) (split b'/' b)

-- The pattern matches these path segments, each static one itself, with these captures.
abbrev pub Matches : List Segment → List Bytes → List (Bytes × Bytes) → Type 0
Matches [] [] captures = captures ≡ []
Matches (static s ∷ segs) (value ∷ values) captures = (s ≡ value) × Matches segs values captures
Matches (param name ∷ segs) (value ∷ values) [] = ⊥
Matches (param name ∷ segs) (value ∷ values) (c ∷ captures) =
    (c ≡ (name, value)) × Matches segs values captures
Matches _ _ captures = ⊥

some-injective : {a b : Params} → some a ≡ some b → a ≡ b
some-injective e = cc

static_match :
    (same : Bool) (rest : Option Params) (p : Params)
    → (if not same then none else rest) ≡ some p
    → (same ≡ true) × (rest ≡ some p)
static_match true rest p h = (refl, h)
static_match false rest p h = cc

zip-Matches :
    (segs : List Segment) (values : List Bytes) (before : List (Bytes × Bytes)) (p : Params)
    → length values ≡ length segs
    → zip_segments segs values before ≡ some p
    → (captures : List (Bytes × Bytes)) × (p.pairs ≡ before ++ captures)
      × Matches segs values captures
unfolding zip_segments
zip-Matches [] [] before p len h =
    ([], sym (append-nil before ∙ ap (λ p. p.pairs) (some-injective h)), refl)
zip-Matches [] (value ∷ values) before p len h = absurd (omega (arith, len))
zip-Matches (seg ∷ segs) [] before p len h = absurd (omega (arith, len))
zip-Matches (static s ∷ segs) (value ∷ values) before p len h =
    let (same, h') = static_match (bytes_eq s value) (zip_segments segs values before) p h in
    let (captures, eq, m) = zip-Matches segs values before p (omega (arith, len)) h' in
    (captures, eq, ((bytes_eq_iff s value).0 same, m))
zip-Matches (param name ∷ segs) (value ∷ values) before p len h =
    let (captures, eq, m) =
      zip-Matches segs values (before ++ (name, value) ∷ []) p (omega (arith, len)) h in
    ((name, value) ∷ captures, eq ∙ append_assoc before ((name, value) ∷ []) captures, (refl, m))

Matches-zip :
    (segs : List Segment) (values : List Bytes) (before captures : List (Bytes × Bytes))
    → Matches segs values captures
    → (length values ≡ length segs)
      × (zip_segments segs values before ≡ some (record { pairs = before ++ captures }))
unfolding zip_segments
Matches-zip [] [] before captures m = (refl, rw m (rw (append-nil before) refl))
Matches-zip (static s ∷ segs) (value ∷ values) before captures (same, m) =
    let (len, e) = Matches-zip segs values before captures m in
    (omega (arith, len), rw ((bytes_eq_iff s value).1 same, e) refl)
Matches-zip (param name ∷ segs) (value ∷ values) before (c ∷ captures) (same, m) =
    let (len, e) = Matches-zip segs values (before ++ (name, value) ∷ []) captures m in
    (omega (arith, len), rw (same, e, append_assoc before ((name, value) ∷ []) captures) refl)
Matches-zip (param name ∷ segs) (value ∷ values) before [] m = absurd m
Matches-zip [] (value ∷ values) before captures m = absurd m
Matches-zip (static s ∷ segs) [] before captures m = absurd m
Matches-zip (param name ∷ segs) [] before captures m = absurd m

-- A pattern matches a path with some parameters exactly when it matches the segments of the path,
-- as many as its own, with these captures in the order of the path.
pub match_segments_iff :
    (pattern : List Segment) (p : Bytes) (params : Params)
    → (match_segments pattern p ≡ some params) ↔ Matches pattern (split_path p) params.pairs
unfolding match_segments
match_segments_iff pattern p params = (matched, matching)
  where
    matched :
        (if not (length (split_path p) == length pattern)
            then none
            else zip_segments pattern (split_path p) [])
          ≡ some params
        → Matches pattern (split_path p) params.pairs
    matched h =
        let (same, h') =
          static_match (length (split_path p) == length pattern)
            (zip_segments pattern (split_path p) []) params h in
        let (captures, eq, m) =
          zip-Matches pattern (split_path p) [] params
            ((==_iff (length (split_path p)) (length pattern)).0 same) h' in
        rw eq m

    matching :
        Matches pattern (split_path p) params.pairs
        → (if not (length (split_path p) == length pattern)
            then none
            else zip_segments pattern (split_path p) [])
          ≡ some params
    matching m =
        let (len, e) = Matches-zip pattern (split_path p) [] params.pairs m in
        rw (e, (==_iff (length (split_path p)) (length pattern)).1 len) refl
