-- ===== src/StaticFiles/Serving.antt =====
-- crates/core/src/handler/static_files.rs: what `serve_static` and `static_exists` answer.
use ferro_http.Base.{
  ◌≡◌, refl, ◌⊎◌, inl, inr, Bool, true, false, ◌||◌, Option, none, some, List, [], ◌∷◌, Bytes, any,
}
use ferro_http.Http.Response.{Response}
use ferro_http.Asset.{Asset, AssetSource, is_loaded}
use ferro_http.StaticFiles.{
  candidate_paths, file_response, serve_first, serve_static, static_exists,
}
use ferro_http.StaticFiles.Safety.{Among, IsInside, candidate_paths-IsInside}

serve_turn :
    (loaded : Option Asset) (answer : Asset → Response) (rest : Option Response) (r : Response)
    → elim loaded [ some a ↦ some (answer a) | none ↦ rest ] ≡ some r
    → ((a : Asset) × (loaded ≡ some a) × (r ≡ answer a)) ⊎ (rest ≡ some r)
serve_turn none answer rest r h = inr h
serve_turn (some a) answer rest r h = inl (a, refl, cc)

serve_first-Among :
    (assets : AssetSource) (overrides : List (Bytes × Bytes)) (cs : List Bytes) (r : Response)
    → serve_first assets overrides cs ≡ some r
    → (c : Bytes) × (a : Asset) × Among c cs
      × (assets.load c ≡ some a)
      × (r ≡ file_response c a overrides)
unfolding serve_first
serve_first-Among assets overrides [] r h = cc
serve_first-Among assets overrides (c ∷ cs) r h =
    elim (serve_turn (assets.load c) (λ a. file_response c a overrides)
      (serve_first assets overrides cs) r h) [
        | inl (a, found, eq) ↦ (c, a, inl refl, found, eq)
        | inr later ↦
            let (c', a, among, found, eq) = serve_first-Among assets overrides cs r later in
            (c', a, inr among, found, eq)
      ]

-- What a request is served is an asset whose path is inside the root: safe segments, then the name
-- of an index file for a directory. The response is the one for that asset, whatever bytes and
-- escapes the request path has.
pub serve_static-IsInside :
    (path : Bytes) (index_files : List Bytes) (assets : AssetSource)
    (overrides : List (Bytes × Bytes)) (r : Response)
    → serve_static path index_files assets overrides ≡ some r
    → (c : Bytes) × (a : Asset) × IsInside index_files c
      × (assets.load c ≡ some a)
      × (r ≡ file_response c a overrides)
unfolding serve_static
serve_static-IsInside path index_files assets overrides r h =
    by_candidates (candidate_paths path index_files) refl h
  where
    by_candidates :
        (candidates : Option (List Bytes))
        → candidate_paths path index_files ≡ candidates
        → elim candidates [ none ↦ none | some cs ↦ serve_first assets overrides cs ] ≡ some r
        → (c : Bytes) × (a : Asset) × IsInside index_files c
          × (assets.load c ≡ some a)
          × (r ≡ file_response c a overrides)
    by_candidates none eq h = cc
    by_candidates (some cs) eq h =
        let (c, a, among, found, same) = serve_first-Among assets overrides cs r h in
        (c, a, candidate_paths-IsInside path index_files cs c eq among, found, same)

abbrev pub is_served : Option Response → Bool
is_served none = false
is_served (some r) = true

-- For a source whose `exists` says whether `load` finds something, `static_exists` holds of the
-- paths that `serve_static` serves and of no other.
pub static_exists-serve :
    (path : Bytes) (index_files : List Bytes) (assets : AssetSource)
    (overrides : List (Bytes × Bytes))
    → ((c : Bytes) → assets.exists c ≡ is_loaded (assets.load c))
    → static_exists path index_files assets
      ≡ is_served (serve_static path index_files assets overrides)
unfolding static_exists serve_static serve_first
static_exists-serve path index_files assets overrides agree =
    by_candidates (candidate_paths path index_files)
  where
    at_turn :
        (loaded : Option Asset) (exists others : Bool) (answer : Asset → Response)
        (rest : Option Response)
        → exists ≡ is_loaded loaded
        → others ≡ is_served rest
        → (exists || others) ≡ is_served (elim loaded [ some a ↦ some (answer a) | none ↦ rest ])
    at_turn none exists others answer rest e o = rw e o
    at_turn (some a) exists others answer rest e o = rw e refl

    in_order :
        (cs : List Bytes) → any assets.exists cs ≡ is_served (serve_first assets overrides cs)
    in_order [] = refl
    in_order (c ∷ cs) =
        at_turn (assets.load c) (assets.exists c) _ (λ a. file_response c a overrides) _ (agree c)
          (in_order cs)

    by_candidates :
        (candidates : Option (List Bytes))
        → elim candidates [ none ↦ false | some cs ↦ any assets.exists cs ]
          ≡ is_served (elim candidates [ none ↦ none | some cs ↦ serve_first assets overrides cs ])
    by_candidates none = refl
    by_candidates (some cs) = in_order cs
