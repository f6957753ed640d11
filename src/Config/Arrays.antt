-- ===== src/Config/Arrays.antt =====
-- crates/core/src/config.rs and json.rs: the arrays and objects that the writer prints are read back.
use ferro_http.Base.{
  ℕ, zero, suc, ◌+◌, ◌≤◌, ◌<◌, ◌≡◌, refl, ap, ◌∙◌, true, false, List, [], ◌∷◌, ◌++◌, append_assoc,
  arith, ltb, length, length-append, Bytes, codes, all, utf8_valid,
}
use mathlib.Core.Path.{subst}
use ferro_http.Base.Text.Utf8.{both_true}
use ferro_http.Json.{
  Float, JsonValue, array, string, expect, Parser, Reply, ok, Float, JsonValue, array, string,
  Items, no_items, item, push_item, Parser, Reply, ok, skip_ws, skip_ws_from, is_ws, expect,
}
use ferro_http.Json.Parse.{
  max_depth, parse_value, value_at, parse_array, items_loop, after_element, max_depth, value_at,
  parse_value, parse_array, items_loop, after_element,
}
use ferro_http.Config.Write.{
  quoted, json_items, json_string_array, escape_json, quoted, json_items, json_string_array,
  escape_json,
}
use ferro_http.Config.Strings.{Yields, Yields-via, Yields, Yields-via}
use ferro_http.Config.Values.{Reads, ends_value, string-Reads}

pub skip_ws-front :
    (ws : Bytes) (c pos : ℕ) (rest : Bytes)
    → all is_ws ws ≡ true
    → is_ws c ≡ false
    → skip_ws (record { pos = pos; rest = ws ++ c ∷ rest })
      ≡ record { pos = pos + length ws; rest = c ∷ rest }
unfolding skip_ws skip_ws_from
skip_ws-front [] c pos rest h stop =
    rw stop (ap (λ x. record { pos = x; rest = c ∷ rest }) (omega arith))
skip_ws-front (w ∷ ws) c pos rest h stop =
    let (here, later) = both_true (is_ws w) (all is_ws ws) h in
    rw here (
      skip_ws-front ws c (suc pos) rest later stop
      ∙ ap (λ x. record { pos = x; rest = c ∷ rest }) (omega arith))

module _ {F : Type 0} where
  unfoldable pub strings : List Bytes → Items F
  strings [] = no_items
  strings (s ∷ ss) = item (string s) (strings ss)

  abbrev append_items : Items F → Items F → Items F
  append_items no_items ws = ws
  append_items (item v vs) ws = item v (append_items vs ws)

  append-push_item :
      (vs : Items F) (v : JsonValue F) (ws : Items F)
      → append_items (push_item vs v) ws ≡ append_items vs (item v ws)
  append-push_item no_items v ws = refl
  append-push_item (item w vs) v ws = ap (item w) (append-push_item vs v ws)

module _ {F : Type 0} where
  push_item-append :
      (vs : Items F) (v : JsonValue F) → push_item vs v ≡ append_items vs (item v no_items)
  push_item-append no_items v = refl
  push_item-append (item w vs) v = ap (item w) (push_item-append vs v)

length-json_items : (ss : List Bytes) → length ss ≤ length (json_items ss)
unfolding json_items
length-json_items [] = omega arith
length-json_items (s ∷ ss) =
    omega (arith, length-json_items ss, length-append (codes ", " ++ quoted s) (json_items ss))

pub within_bound :
    (depth deep : ℕ) → depth + suc deep ≤ max_depth → ltb max_depth (depth + 1) ≡ false
within_bound depth deep bound = ground (arith, bound)

module _ {F : Type 0} (value : Parser → Reply (JsonValue F))
    (string-read : (s : Bytes) (pos : ℕ) (tail : Bytes)
      → utf8_valid s ≡ true
      → ends_value tail ≡ true
      → Yields (string s) tail (value (record { pos = pos; rest = quoted s ++ tail }))) where
  -- The loop reads the strings up to the closing bracket, with white space in front of the first.
  items_loop-strings :
      (fuel pos : ℕ) (vs : Items F) (ws s : Bytes) (ss : List Bytes) (tail : Bytes)
      → length ss < fuel
      → all is_ws ws ≡ true
      → utf8_valid s ≡ true
      → all utf8_valid ss ≡ true
      → Yields (append_items vs (strings (s ∷ ss))) tail (
          items_loop value fuel vs
            (record { pos = pos; rest = ws ++ (quoted s ++ (json_items ss ++ b']' ∷ tail)) }))
  unfolding items_loop json_items after_element skip_ws skip_ws_from strings
  items_loop-strings zero pos vs ws s ss tail enough blank valid valids =
      absurd (omega (arith, enough))
  items_loop-strings (suc fuel) pos vs ws s [] tail enough blank valid valids =
      let (at, read) = string-read s (pos + length ws) (b']' ∷ tail) valid refl in
      (
        at + 1,
        rw (skip_ws-front ws b'"' pos (escape_json s ++ b'"' ∷ [] ++ b']' ∷ tail) blank refl, read)
            (ap (λ x. ok x (record { pos = at + 1; rest = tail }))
              (push_item-append vs (string s))),
      )
  items_loop-strings (suc fuel) pos vs ws s (t ∷ ss) tail enough blank valid valids =
      let (here, later) = both_true (utf8_valid t) (all utf8_valid ss) valids in
      let (at, read) =
        string-read s (pos + length ws) (json_items (t ∷ ss) ++ b']' ∷ tail) valid refl in
      let next : Items F = push_item vs (string s) in
      Yields-via
        (rw
          (
            skip_ws-front ws b'"' pos
                (escape_json s ++ b'"' ∷ [] ++ (json_items (t ∷ ss) ++ b']' ∷ tail)) blank refl,
            read,
          )
          (ap (λ x. items_loop value fuel next (record { pos = at + 1; rest = b' ' ∷ x }))
            (append_assoc (quoted t) (json_items ss) (b']' ∷ tail))))
        (subst
          (λ x. Yields x tail (
            items_loop value fuel next
              (record { pos = at + 1; rest = b' ' ∷ quoted t ++ (json_items ss ++ b']' ∷ tail) })))
          (append-push_item vs (string s) (strings (t ∷ ss)))
          (items_loop-strings fuel (at + 1) next (b' ' ∷ []) t ss tail (omega (arith, enough)) refl
            here later))

module _ {F : Type 0} (float : Float F) where
  value-string :
      (fuel depth : ℕ)
      → 0 < fuel
      → depth ≤ max_depth
      → (s : Bytes) (pos : ℕ) (tail : Bytes) → utf8_valid s ≡ true
      → ends_value tail ≡ true
      → Yields
          (string s)
          tail
          (parse_value float fuel depth (record { pos = pos; rest = quoted s ++ tail }))
  value-string fuel depth enough bound s pos tail valid end =
      string-Reads float 0 s valid fuel depth pos tail enough (omega (arith, bound)) end

  -- An array of strings is read back.
  pub array-Reads :
      (deep : ℕ) (ss : List Bytes)
      → all utf8_valid ss ≡ true
      → Reads float (suc deep) (json_string_array ss) (array (strings ss))
  unfolding parse_value value_at parse_array expect skip_ws skip_ws_from strings json_string_array
  array-Reads deep ss valid zero depth pos tail enough bound end = absurd (omega (arith, enough))
  array-Reads deep [] valid (suc fuel) depth pos tail enough bound end =
      rw (within_bound depth deep bound) (pos + 1 + 1, refl)
  array-Reads deep (s ∷ ss) valid (suc fuel) depth pos tail enough bound end =
      let (here, later) = both_true (utf8_valid s) (all utf8_valid ss) valid in
      let text : Bytes = quoted s ++ (json_items ss ++ b']' ∷ tail) in
      let (at, read) =
        items_loop-strings (parse_value float fuel (depth + 1))
          (value-string fuel (depth + 1) (omega (arith, enough)) (omega (arith, bound)))
          (suc (length text)) (pos + 1) no_items [] s ss tail
          (omega (
            arith,
            length-json_items ss,
            length-append (quoted s) (json_items ss ++ b']' ∷ tail),
            length-append (json_items ss) (b']' ∷ tail),
          ))
          refl here later in
      (
        at,
        ap
              (λ x.
                parse_array (parse_value float fuel (depth + 1)) depth
                  (record { pos = pos; rest = b'[' ∷ x }))
              (append_assoc (quoted s ++ json_items ss) (b']' ∷ []) tail
                ∙ append_assoc (quoted s) (json_items ss) (b']' ∷ tail))
            ∙ rw (within_bound depth deep bound, read) refl,
      )
