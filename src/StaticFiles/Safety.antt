-- ===== src/StaticFiles/Safety.antt =====
-- crates/core/src/handler/static_files.rs: the paths that reach the source of assets.
use ferro_http.Base.{
  ℕ, ◌≡◌, refl, ◌⊎◌, inl, inr, Bool, true, false, ◌||◌, Option, none, some, List, [], ◌∷◌, map,
  ◌==◌, if◌then◌else◌, Bool-cases, Bytes, is_empty, any, split, cons_head,
}
use mathlib.Core.Option
use ferro_http.StaticFiles.{
  is_skipped, is_refused, sanitize_in, sanitize, join, index_path, candidates_of, candidate_paths,
  percent_decode, ends_with_slash,
}

-- A segment names an entry of its directory: it is not empty, `.` or `..`, and has no slash,
-- backslash or control byte.
pub record IsSafe (s : Bytes) : Type 0 where
  pub skipped : is_skipped s ≡ false
  pub refused : is_refused s ≡ false
  pub whole : any (λ b. b == b'/') s ≡ false

abbrev pub AllSafe : List Bytes → Type 0
AllSafe [] = Unit
AllSafe (s ∷ segs) = IsSafe s × AllSafe segs

abbrev NoSlash : List Bytes → Type 0
NoSlash [] = Unit
NoSlash (s ∷ segs) = (any (λ b. b == b'/') s ≡ false) × NoSlash segs

cons_head-NoSlash :
    (c : ℕ) (ps : List Bytes) → (c == b'/') ≡ false → NoSlash ps → NoSlash (cons_head c ps)
cons_head-NoSlash c [] other n = (rw other refl, tt)
cons_head-NoSlash c (p ∷ ps) other (whole, n) = (rw (other, whole) refl, n)

some-injective : {a b : List Bytes} → some a ≡ some b → a ≡ b
some-injective e = cc

split-NoSlash : (p : Bytes) → NoSlash (split b'/' p)
unfolding split
split-NoSlash [] = (refl, tt)
split-NoSlash (c ∷ p) = elim (Bool-cases (c == b'/')) [
  | inl slash ↦ rw slash (refl, split-NoSlash p)
  | inr other ↦ rw other (cons_head-NoSlash c (split b'/' p) other (split-NoSlash p))
]

-- What a turn of the loop of `sanitize` does where it succeeds.
sanitize_turn :
    (skipped refused : Bool) (s : Bytes) (rest : Option (List Bytes)) (out : List Bytes)
    → (if skipped then rest else if refused then none else Option.map (λ r. s ∷ r) rest) ≡ some out
    → (rest ≡ some out)
      ⊎ ((skipped ≡ false)
          × (refused ≡ false)
          × ((r : List Bytes) × (rest ≡ some r) × (out ≡ s ∷ r)))
sanitize_turn true refused s rest out h = inl h
sanitize_turn false true s rest out h = cc
sanitize_turn false false s none out h = cc
sanitize_turn false false s (some r) out h = inr (refl, refl, (r, refl, cc))

sanitize_in-AllSafe :
    (segs out : List Bytes) → NoSlash segs → sanitize_in segs ≡ some out → AllSafe out
unfolding sanitize_in
sanitize_in-AllSafe [] [] n h = tt
sanitize_in-AllSafe [] (s ∷ out) n h = cc
sanitize_in-AllSafe (s ∷ segs) out (whole, n) h =
    elim (sanitize_turn (is_skipped s) (is_refused s) s (sanitize_in segs) out h) [
      | inl later ↦ sanitize_in-AllSafe segs out n later
      | inr (skipped, refused, (r, later, eq)) ↦ rw eq (
        record { skipped = skipped; refused = refused; whole = whole },
        sanitize_in-AllSafe segs r n later,
      )
    ]

abbrev pub Among : Bytes → List Bytes → Type 0
Among x [] = ⊥
Among x (y ∷ ys) = (x ≡ y) ⊎ Among x ys

-- A candidate is made of safe segments below the root, then the name of an index file where the
-- request is for a directory.
abbrev pub IsInside : List Bytes → Bytes → Type 0
IsInside index_files path =
    (segs : List Bytes) × AllSafe segs
    × ((path ≡ join segs)
        ⊎ ((index : Bytes) × Among index index_files × (path ≡ index_path (join segs) index)))

Among-map :
    (f : Bytes → Bytes) (x : Bytes) (ys : List Bytes)
    → Among x (map f ys)
    → (y : Bytes) × Among y ys × (x ≡ f y)
Among-map f x [] h = absurd h
Among-map f x (y ∷ ys) (inl eq) = (y, inl refl, eq)
Among-map f x (y ∷ ys) (inr later) =
    let (z, among, eq) = Among-map f x ys later in (z, inr among, eq)

candidates_of-IsInside :
    (decoded : Bytes) (segs index_files : List Bytes) (c : Bytes)
    → AllSafe segs
    → Among c (candidates_of decoded segs index_files)
    → IsInside index_files c
candidates_of-IsInside decoded segs index_files c safe among =
    by_kind (is_empty segs || ends_with_slash decoded) among
  where
    by_kind :
        (directory : Bool)
        → Among c (if directory then map (index_path (join segs)) index_files else join segs ∷ [])
        → IsInside index_files c
    by_kind true h =
        let (index, among, eq) = Among-map (index_path (join segs)) c index_files h in
        (segs, safe, inr (index, among, eq))
    by_kind false (inl eq) = (segs, safe, inl eq)
    by_kind false (inr h) = absurd h

pub candidate_paths-IsInside :
    (path : Bytes) (index_files candidates : List Bytes) (c : Bytes)
    → candidate_paths path index_files ≡ some candidates
    → Among c candidates
    → IsInside index_files c
unfolding candidate_paths sanitize
candidate_paths-IsInside path index_files candidates c h among = by_decoded (percent_decode path) h
  where
    by_segments :
        (decoded : Bytes) (segs : Option (List Bytes))
        → sanitize_in (split b'/' decoded) ≡ segs
        → Option.map (λ segments. candidates_of decoded segments index_files) segs ≡ some candidates
        → IsInside index_files c
    by_segments decoded none eq h = cc
    by_segments decoded (some segs) eq h =
        candidates_of-IsInside decoded segs index_files c
          (sanitize_in-AllSafe (split b'/' decoded) segs (split-NoSlash decoded) eq)
          (rw (some-injective h) among)

    by_decoded :
        (decoded : Option Bytes)
        → elim decoded [
          | none ↦ none
          | some d ↦
              Option.map
                (λ segments. candidates_of d segments index_files)
                (sanitize_in (split b'/' d))
        ]
          ≡ some candidates
        → IsInside index_files c
    by_decoded none h = cc
    by_decoded (some d) h = by_segments d (sanitize_in (split b'/' d)) refl h
