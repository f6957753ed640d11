-- ===== src/Config/Parts/Mime.antt =====
-- crates/core/src/config.rs: the overrides of media types are read back.
use ferro_http.Base.{
  zero, suc, ◌+◌, ◌≡◌, refl, ap, Bool, true, ◌&&◌, List, [], ◌∷◌, map, arith, Bytes, codes, all,
  utf8_valid,
}
use ferro_http.Base.Text.Utf8.{both_true}
use ferro_http.Json.{Float, object, no_members, expect, skip_ws, skip_ws_from}
use ferro_http.Config.{ok}
use ferro_http.Config.Read.{string_members, read_string_map}
use ferro_http.Config.Write.{json_string_object, mime_entry, block}
use ferro_http.Config.Values.{Reads}
use ferro_http.Config.Arrays.{within_bound}
use ferro_http.Config.Members.{Field, entry, members_of}
use ferro_http.Config.Fields.{text_field, object_field}
use ferro_http.Config.Parts.{Part}
use mathlib.Core.Path.{subst}
use ferro_http.Base.Text.Decimal.{utf8_valid-nil}
use ferro_http.Json.Parse.{parse_value, value_at, parse_object}

abbrev pub pair_valid : Bytes × Bytes → Bool
pair_valid (k, v) = utf8_valid k && utf8_valid v

module _ {F : Type 0} (float : Float F) where
  mime_field : (p : Bytes × Bytes) → pair_valid p ≡ true → Field float 1
  mime_field (k, v) valid =
      let (key_valid, value_valid) = both_true (utf8_valid k) (utf8_valid v) valid in
      text_field float 1 k v key_valid value_valid

  mime_fields : (ps : List (Bytes × Bytes)) → all pair_valid ps ≡ true → List (Field float 1)
  mime_fields [] valid = []
  mime_fields (p ∷ ps) valid =
      let (here, later) = both_true (pair_valid p) (all pair_valid ps) valid in
      mime_field p here ∷ mime_fields ps later

  mime_fields-entries :
      (ps : List (Bytes × Bytes)) (valid : all pair_valid ps ≡ true)
      → map (entry float 1) (mime_fields ps valid) ≡ map mime_entry ps
  unfolding mime_fields mime_field entry
  mime_fields-entries [] valid = refl
  mime_fields-entries (p ∷ ps) valid =
      ap (◌∷◌ (mime_entry p))
        (mime_fields-entries ps (both_true (pair_valid p) (all pair_valid ps) valid).1)

  string_members-fields :
      (ps : List (Bytes × Bytes)) (valid : all pair_valid ps ≡ true) (path : Bytes)
      → string_members (members_of float 1 (mime_fields ps valid)) path ≡ ok ps
  unfolding mime_fields mime_field members_of string_members
  string_members-fields [] valid path = refl
  string_members-fields (p ∷ ps) valid path =
      rw (string_members-fields ps (both_true (pair_valid p) (all pair_valid ps) valid).1 path) refl

  empty-Reads : Reads float 2 (codes "{}") (object no_members)
  unfolding parse_value value_at parse_object expect skip_ws skip_ws_from
  empty-Reads zero depth pos tail enough bound end = absurd (omega (arith, enough))
  empty-Reads (suc fuel) depth pos tail enough bound end =
      rw (within_bound depth 1 bound) (pos + 1 + 1, refl)

  pub mime-Part :
      (ps : List (Bytes × Bytes)) (path : Bytes)
      → all pair_valid ps ≡ true
      → Part float (json_string_object ps) (λ v. read_string_map v path) ps
  unfolding json_string_object read_string_map string_members mime_fields mime_field entry
      members_of
  mime-Part [] path valid = record {
    value = object no_members;
    starts = refl;
    text_reads = empty-Reads;
    read_back = refl;
  }
  mime-Part (p ∷ ps) path valid =
      subst
        (λ es.
          Part float (block (codes "  ") (codes "    ") (mime_entry p) es)
            (λ v. read_string_map v path) (p ∷ ps))
        (mime_fields-entries ps later)
        (record {
          value = field.value;
          starts = field.text_starts;
          text_reads = field.text_reads;
          read_back = string_members-fields (p ∷ ps) valid path;
        })
    where
      here : pair_valid p ≡ true
      here = (both_true (pair_valid p) (all pair_valid ps) valid).0

      later : all pair_valid ps ≡ true
      later = (both_true (pair_valid p) (all pair_valid ps) valid).1

      field : Field float 2
      field =
          object_field float 1 [] (codes "  ") (codes "    ") (mime_field p here)
            (mime_fields ps later) utf8_valid-nil refl refl
