-- ===== src/Config/Fields.antt =====
-- crates/core/src/config.rs: the members that the writer prints, by their kind.
use ferro_http.Base.{
  ℕ, suc, ◌^◌, ◌≤◌, ◌<◌, ◌≡◌, refl, Bool, true, false, not, some, List, [], ◌∷◌, map, arith, length,
  Bytes, all, u64_max, is_ascii_digit, utf8_valid, print_dec,
}
use ferro_http.Base.Text.Utf8.{both_true}
use ferro_http.Base.Text.Decimal.{print_dec-digits, length-print_dec}
use ferro_http.Json.{Float, object, array, string, number, bool, as_u64, is_ws}
use ferro_http.Config.Write.{quoted, print_bool, json_string_array, block}
use ferro_http.Config.Values.{string-Reads, bool-Reads, number-Reads}
use ferro_http.Config.Arrays.{array-Reads, strings}
use ferro_http.Config.Blocks.{block-Reads}
use ferro_http.Config.Members.{Field, entry, members_of, starts_value}

-- `f64` is exact on the integers to 2^53: a decimal text is converted to the nearest value, and such
-- an integer is one. The comparisons are those of the integers.
pub record IsExact {F : Type 0} (float : Float F) : Type 0 where
  pub parse_exact : (n : ℕ) → n ≤ 2 ^ 53 → float.parse (print_dec n) ≡ some (float.of_u64 n)
  pub cast_back : (n : ℕ) → n ≤ 2 ^ 53 → float.to_u64 (float.of_u64 n) ≡ n
  pub zero_le : (n : ℕ) → n ≤ 2 ^ 53 → float.le (float.of_u64 0) (float.of_u64 n) ≡ true
  pub le_max : (n : ℕ) → n ≤ 2 ^ 53 → float.le (float.of_u64 n) (float.of_u64 u64_max) ≡ true
  pub eq_self : (n : ℕ) → n ≤ 2 ^ 53 → float.eq (float.of_u64 n) (float.of_u64 n) ≡ true

pub as_u64-exact :
    {F : Type 0} (float : Float F) (exact : IsExact float) (n : ℕ)
    → n ≤ 2 ^ 53
    → as_u64 float (number (float.of_u64 n)) ≡ some n
unfolding as_u64
as_u64-exact float exact n small =
    rw (exact.zero_le n small, exact.le_max n small, exact.cast_back n small, exact.eq_self n small)
      refl

pub bool_starts : (b : Bool) → starts_value (print_bool b) ≡ true
bool_starts true = refl
bool_starts false = refl

pub digits_start :
    (ds : Bytes) → all is_ascii_digit ds ≡ true → 0 < length ds → starts_value ds ≡ true
digits_start [] h long = absurd (omega (arith, long))
digits_start (d ∷ ds) h long = not_blank (both_true (is_ascii_digit d) (all is_ascii_digit ds) h).0
  where
    not_blank : is_ascii_digit d ≡ true → not (is_ws d) ≡ true
    not_blank here = ground (arith, here)

pub array_starts : (ss : List Bytes) → starts_value (json_string_array ss) ≡ true
unfolding json_string_array
array_starts [] = refl
array_starts (s ∷ ss) = refl

module _ {F : Type 0} (float : Float F) where
  abbrev pub text_field :
      (deep : ℕ) (key s : Bytes) → utf8_valid key ≡ true → utf8_valid s ≡ true → Field float deep
  text_field deep key s key_valid valid = record {
    key = key;
    text = quoted s;
    value = string s;
    key_valid = key_valid;
    text_starts = refl;
    text_reads = string-Reads float deep s valid;
  }

  abbrev pub bool_field :
      (deep : ℕ) (key : Bytes) (b : Bool) → utf8_valid key ≡ true → Field float deep
  bool_field deep key b key_valid = record {
    key = key;
    text = print_bool b;
    value = bool b;
    key_valid = key_valid;
    text_starts = bool_starts b;
    text_reads = bool-Reads float deep b;
  }

  abbrev pub number_field :
      (deep : ℕ) (key : Bytes) (n : ℕ)
      → utf8_valid key ≡ true
      → IsExact float
      → n ≤ 2 ^ 53
      → Field float deep
  number_field deep key n key_valid exact small = record {
    key = key;
    text = print_dec n;
    value = number (float.of_u64 n);
    key_valid = key_valid;
    text_starts = digits_start (print_dec n) (print_dec-digits n) (length-print_dec n);
    text_reads = number-Reads float deep n (exact.parse_exact n small);
  }

  abbrev pub array_field :
      (deep : ℕ) (key : Bytes) (ss : List Bytes)
      → utf8_valid key ≡ true
      → all utf8_valid ss ≡ true
      → Field float (suc deep)
  array_field deep key ss key_valid valid = record {
    key = key;
    text = json_string_array ss;
    value = array (strings ss);
    key_valid = key_valid;
    text_starts = array_starts ss;
    text_reads = array-Reads float deep ss valid;
  }

  pub block_starts :
      (outer indent : Bytes) (e : Bytes × Bytes) (es : List (Bytes × Bytes))
      → starts_value (block outer indent e es) ≡ true
  unfolding block
  block_starts outer indent e es = refl

  abbrev pub object_field :
      (deep : ℕ) (key outer indent : Bytes) (f : Field float deep) (fs : List (Field float deep))
      → utf8_valid key ≡ true
      → all is_ws outer ≡ true
      → all is_ws indent ≡ true
      → Field float (suc deep)
  object_field deep key outer indent f fs key_valid outer_blank indent_blank = record {
    key = key;
    text = block outer indent (entry float deep f) (map (entry float deep) fs);
    value = object (members_of float deep (f ∷ fs));
    key_valid = key_valid;
    text_starts = block_starts outer indent (entry float deep f) (map (entry float deep) fs);
    text_reads = block-Reads float deep outer indent f fs outer_blank indent_blank;
  }
