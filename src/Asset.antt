-- ===== src/Asset.antt =====
-- crates/core/src/asset.rs: where static assets come from.
use ferro_http.Base.{
  ℕ, Bool, true, false, Option, none, some, List, [], ◌∷◌, if◌then◌else◌, Bytes, bytes_eq,
}

pub record Asset : Type 0 where
  pub bytes : Bytes
  pub mtime : Option ℕ

-- The trait `AssetSource`.
pub record AssetSource : Type 0 where
  pub load : Bytes → Option Asset
  pub exists : Bytes → Bool

abbrev pub is_loaded : Option Asset → Bool
is_loaded none = false
is_loaded (some a) = true

-- A source with the trait's own `exists`.
abbrev pub source_of : (Bytes → Option Asset) → AssetSource
source_of load = record { load = load; exists = λ path. is_loaded (load path) }

-- `load` of `EmbeddedAssets`, on its table.
unfoldable pub load_embedded : List (Bytes × Bytes) → Bytes → Option Asset
load_embedded [] path = none
load_embedded ((name, bytes) ∷ table) path =
    if bytes_eq name path
    then some (record { bytes = bytes; mtime = none })
    else load_embedded table path

-- `EmbeddedAssets::new`
unfoldable pub embedded_assets : List (Bytes × Bytes) → AssetSource
embedded_assets table = source_of (load_embedded table)
