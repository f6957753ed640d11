-- ===== src/Config/Blocks.antt =====
-- crates/core/src/config.rs and json.rs: the objects that the writer prints are read back.
use ferro_http.Base.{
  ℕ, zero, suc, ◌+◌, ◌<◌, ◌≡◌, refl, ap, ◌∙◌, true, List, [], ◌∷◌, ◌++◌, map, arith, length,
  length-append, Bytes, all,
}
use mathlib.Core.Path.{subst}
use ferro_http.Json.{
  Float, JsonValue, object, Members, no_members, push_member, Parser, Reply, ok, skip_ws, is_ws,
  expect,
}
use ferro_http.Json.Parse.{value_at, parse_value, parse_object, members_loop, after_element}
use ferro_http.Config.Write.{more_lines, block}
use ferro_http.Config.Strings.{Yields, Yields-via, parse_string-quoted}
use ferro_http.Config.Values.{Reads, ends_value}
use ferro_http.Config.Arrays.{skip_ws-front, within_bound}
use ferro_http.Config.Members.{
  Field, append-push_member, append_members, block-opened, entry, length-opened, length-rest_of,
  members_of, opened, push_member-append, rest_of, rest_of-cons, rest_of-ends, skip_ws-colon,
  skip_ws-comma, skip_ws-value,
}

module _ {F : Type 0} (float : Float F) (deep : ℕ) (value : Parser → Reply (JsonValue F))
    (value-read : (f : Field float deep) (pos : ℕ) (tail : Bytes)
      → ends_value tail ≡ true
      → Yields f.value tail (value (record { pos = pos; rest = f.text ++ tail }))) where
  -- One turn of the loop, up to what follows the value.
  field_turn :
      (fuel pos : ℕ) (vs : Members F) (ws : Bytes) (f : Field float deep) (rest : Bytes)
      → all is_ws ws ≡ true
      → ends_value rest ≡ true
      → (pos' : ℕ) × (members_loop value
            (suc fuel)
            vs
            (record { pos = pos; rest = ws ++ opened f.key f.text rest })
          ≡ after_element b'}'
              (skip_ws (record { pos = pos'; rest = rest }))
              (members_loop value fuel (push_member vs f.key f.value))
              (push_member vs f.key f.value))
  unfolding members_loop expect
  field_turn fuel pos vs ws f rest blank end =
      let (at_colon, key_read) =
        parse_string-quoted (pos + length ws) f.key (b':' ∷ b' ' ∷ (f.text ++ rest)) f.key_valid in
      let (at_end, read) = value-read f (suc (at_colon + 1)) rest end in
      (
        at_end,
        rw
            (
              skip_ws-front ws b'"' pos _ blank refl,
              key_read,
              skip_ws-colon at_colon (f.text ++ rest),
              skip_ws-value f.text rest (at_colon + 1) f.text_starts,
              read,
            )
            refl,
      )

  module _ (outer indent : Bytes) (outer_blank : all is_ws outer ≡ true)
      (indent_blank : all is_ws indent ≡ true) where
    close_block :
        {A : Type 0} (at : ℕ) (next : Parser → Reply A) (done : A) (tail : Bytes)
        → after_element b'}'
            (skip_ws (record {
              pos = at;
              rest = rest_of {float = float} {deep = deep} outer indent [] tail;
            }))
            next
            done
          ≡ ok done (record { pos = at + suc (length outer) + 1; rest = tail })
    unfolding rest_of more_lines after_element
    close_block at next done tail =
        rw (skip_ws-front (b'\n' ∷ outer) b'}' at tail outer_blank refl) refl

    next_line :
        {A : Type 0} (at : ℕ) (next : Parser → Reply A) (done : A) (f : Field float deep)
        (fs : List (Field float deep)) (tail : Bytes)
        → after_element b'}'
            (skip_ws (record { pos = at; rest = rest_of outer indent (f ∷ fs) tail }))
            next
            done
          ≡ next (record {
            pos = at + 1;
            rest = b'\n' ∷ (indent ++ opened f.key f.text (rest_of outer indent fs tail));
          })
    unfolding after_element
    next_line at next done f fs tail =
        rw
          (
            rest_of-cons outer indent f fs tail,
            skip_ws-comma at
                (b'\n' ∷ (indent ++ opened f.key f.text (rest_of outer indent fs tail))),
          )
          refl

    -- The loop reads the members up to the closing brace, with white space in front of the first.
    members_loop-fields :
        (fuel pos : ℕ) (vs : Members F) (ws : Bytes) (f : Field float deep)
        (fs : List (Field float deep)) (tail : Bytes)
        → length fs < fuel
        → all is_ws ws ≡ true
        → Yields (append_members vs (members_of float deep (f ∷ fs))) tail (
            members_loop value fuel vs (record {
              pos = pos;
              rest = ws ++ opened f.key f.text (rest_of outer indent fs tail);
            }))
    unfolding members_of
    members_loop-fields zero pos vs ws f fs tail enough blank = absurd (omega (arith, enough))
    members_loop-fields (suc fuel) pos vs ws f [] tail enough blank =
        let (at, turned) =
          field_turn fuel pos vs ws f (rest_of {float = float} {deep = deep} outer indent [] tail)
            blank (rest_of-ends outer indent [] tail) in
        (
          at + suc (length outer) + 1,
          turned
              ∙ close_block at (members_loop value fuel (push_member vs f.key f.value))
                  (push_member vs f.key f.value) tail
              ∙ ap (λ x. ok x (record { pos = at + suc (length outer) + 1; rest = tail }))
                  (push_member-append vs f.key f.value),
        )
    members_loop-fields (suc fuel) pos vs ws f (g ∷ fs) tail enough blank =
        let (at, turned) =
          field_turn fuel pos vs ws f (rest_of outer indent (g ∷ fs) tail) blank
            (rest_of-ends outer indent (g ∷ fs) tail) in
        let next : Members F = push_member vs f.key f.value in
        Yields-via (turned ∙ next_line at (members_loop value fuel next) next g fs tail) (
          subst
            (λ x. Yields x tail (
              members_loop value fuel next (record {
                pos = at + 1;
                rest = (b'\n' ∷ indent) ++ opened g.key g.text (rest_of outer indent fs tail);
              })))
            (append-push_member vs f.key f.value (members_of float deep (g ∷ fs)))
            (members_loop-fields fuel (at + 1) next (b'\n' ∷ indent) g fs tail
              (omega (arith, enough)) indent_blank))

module _ {F : Type 0} (float : Float F) (deep : ℕ) where
  -- An object with a line for each member is read back.
  pub block-Reads :
      (outer indent : Bytes) (f : Field float deep) (fs : List (Field float deep))
      → all is_ws outer ≡ true
      → all is_ws indent ≡ true
      → Reads float
          (suc deep)
          (block outer indent (entry float deep f) (map (entry float deep) fs))
          (object (members_of float deep (f ∷ fs)))
  unfolding parse_value value_at parse_object expect block
  block-Reads outer indent f fs outer_blank indent_blank zero depth pos tail enough bound end =
      absurd (omega (arith, enough))
  block-Reads outer indent f fs outer_blank indent_blank (suc fuel) depth pos tail enough bound
        end =
      let value : Parser → Reply (JsonValue F) = parse_value float fuel (depth + 1) in
      let text : Bytes = opened f.key f.text (rest_of outer indent fs tail) in
      let (at, read) =
        members_loop-fields float deep value
          (λ g pos' tail' end'.
            g.text_reads fuel (depth + 1) pos' tail' (omega (arith, enough)) (omega (arith, bound))
              end')
          outer indent outer_blank indent_blank (suc (length (b'\n' ∷ (indent ++ text))))
          (pos + 1 + length (b'\n' ∷ indent)) no_members [] f fs tail
          (omega (
            arith,
            length-rest_of outer indent fs tail,
            length-opened f.key f.text (rest_of outer indent fs tail),
            length-append indent text,
          ))
          refl in
      (
        at,
        ap (λ x. parse_object value depth (record { pos = pos; rest = x }))
              (block-opened outer indent f fs tail)
            ∙ rw
                (
                  within_bound depth deep bound,
                  skip_ws-front (b'\n' ∷ indent) b'"' (pos + 1) _ indent_blank refl,
                  read,
                )
                refl,
      )
