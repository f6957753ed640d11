-- ===== src/Config/Strings.antt =====
-- crates/core/src/config.rs and json.rs: a string that is written between quotes is read back.
use ferro_http.Base.{
  ℕ, zero, suc, ◌+◌, ◌≤◌, ◌<◌, ◌≡◌, refl, sym, ap, ◌∙◌, inl, inr, true, [], ◌∷◌, ◌++◌, append_assoc,
  append-nil, arith, ltb, leb, ltb→lt, Bool-cases, length, take, drop, length-append, length-take,
  length-drop, take-append-drop, Bytes, all, utf8_valid,
}
use mathlib.Core.Path.{subst}
use ferro_http.Base.Text.Utf8.{continuations, character, both_true, ascii}
use ferro_http.Json.{expect, Reply, ok, expect}
use ferro_http.Json.Text.{
  parse_string, utf8_len, string_turn, string_loop, parse_string, utf8_len, string_turn,
  string_loop, parse_string, utf8_len, string_turn, string_loop, parse_string,
}
use ferro_http.Config.Write.{
  quoted, escape_byte, escape_json, quoted, escape_byte, escape_json, quoted, escape_byte,
  escape_json, quoted, escape_byte, escape_json, quoted,
}
use ferro_http.Config.Escapes.{byte_back, verbatim_turn}

-- The step yields that value and stands before that text.
abbrev pub Yields : {A : Type 0} → A → Bytes → Reply A → Type 0
Yields a tail r = (pos : ℕ) × (r ≡ ok a (record { pos = pos; rest = tail }))

escape_byte-high : (c : ℕ) → leb 0x80 c ≡ true → escape_byte c ≡ c ∷ []
unfolding escape_byte
escape_byte-high c high = ground (arith, high)

-- Bytes above ASCII are not escaped.
escape_json-high :
    (n : ℕ) (cs : Bytes)
    → all (leb 0x80) (take n cs) ≡ true
    → escape_json cs ≡ take n cs ++ escape_json (drop n cs)
unfolding escape_json
escape_json-high zero cs h = refl
escape_json-high (suc n) [] h = refl
escape_json-high (suc n) (c ∷ cs) h =
    let (here, later) = both_true (leb 0x80 c) (all (leb 0x80) (take n cs)) h in
    rw (escape_byte-high c here) (ap (◌∷◌ c) (escape_json-high n cs later))

utf8_len-high : (c : ℕ) → 0xC2 ≤ c → c ≤ 0xF4 → utf8_len c ≡ suc (continuations c)
unfolding utf8_len
utf8_len-high c least most = ground (arith, least, most)

pub take_front : (xs ys : Bytes) → take (length xs) (xs ++ ys) ≡ xs
take_front [] ys = refl
take_front (x ∷ xs) ys = ap (◌∷◌ x) (take_front xs ys)

pub drop_front : (xs ys : Bytes) → drop (length xs) (xs ++ ys) ≡ ys
drop_front [] ys = refl
drop_front (x ∷ xs) ys = drop_front xs ys

-- A whole character above ASCII in front of what follows it.
character_turn :
    (fuel c pos : ℕ) (xs tail out : Bytes)
    → 0xC2 ≤ c
    → utf8_len c ≡ suc (length xs)
    → utf8_valid (c ∷ xs) ≡ true
    → string_loop (suc fuel) out (record { pos = pos; rest = c ∷ xs ++ tail })
      ≡ string_loop fuel (out ++ c ∷ xs) (record { pos = pos + suc (length xs); rest = tail })
character_turn fuel c pos xs tail out least len valid =
    verbatim_turn fuel c (length xs) pos (xs ++ tail) out (ground (arith, least))
      (ground (arith, least)) (ground (arith, least)) len (omega (arith, length-append xs tail))
      (rw (take_front xs tail) valid)
    ∙ rw (take_front xs tail, drop_front xs tail) refl

close_turn :
    (fuel pos : ℕ) (tail out : Bytes)
    → string_loop (suc fuel) out (record { pos = pos; rest = b'"' ∷ tail })
      ≡ ok out (record { pos = pos + 1; rest = tail })
unfolding string_loop string_turn
close_turn fuel pos tail out = refl

pub Yields-via :
    {A : Type 0} {a : A} {tail : Bytes} {r r' : Reply A}
    → r ≡ r'
    → Yields a tail r'
    → Yields a tail r
Yields-via e (pos, e') = (pos, e ∙ e')

-- The text of a character above ASCII and of what follows it.
spelled :
    (c : ℕ) (cs tail : Bytes)
    → leb 0x80 c ≡ true
    → all (leb 0x80) (take (continuations c) cs) ≡ true
    → escape_json (c ∷ cs) ++ b'"' ∷ tail
      ≡ c ∷ take (continuations c) cs ++ (escape_json (drop (continuations c) cs) ++ b'"' ∷ tail)
unfolding escape_json
spelled c cs tail high follow =
    rw (escape_byte-high c high, escape_json-high (continuations c) cs follow)
      (ap (◌∷◌ c) (
        append_assoc (take (continuations c) cs) (escape_json (drop (continuations c) cs))
          (b'"' ∷ tail)))

-- The loop at that text.
abbrev loop_at : ℕ → Bytes → ℕ → Bytes → Reply Bytes
loop_at fuel out pos text = string_loop fuel out (record { pos = pos; rest = text })

-- The loop reads the text back up to the closing quote.
string_loop-escape_json :
    (fuel pos : ℕ) (s tail out : Bytes)
    → utf8_valid s ≡ true
    → length s < fuel
    → Yields (out ++ s) tail (loop_at fuel out pos (escape_json s ++ b'"' ∷ tail))
unfolding escape_json
string_loop-escape_json zero pos s tail out valid enough = absurd (omega (arith, enough))
string_loop-escape_json (suc fuel) pos [] tail out valid enough =
    (pos + 1, rw (append-nil out) (close_turn fuel pos tail out))
string_loop-escape_json (suc fuel) pos (c ∷ cs) tail out valid enough =
    elim (Bool-cases (ltb c 0x80)) [
      | inl low ↦
          let small : c < 0x80 = ltb→lt c 0x80 low in
          let (after, turned) = byte_back fuel c pos (escape_json cs ++ b'"' ∷ tail) out small in
          Yields-via
            (ap (loop_at (suc fuel) out pos)
                (append_assoc (escape_byte c) (escape_json cs) (b'"' ∷ tail))
              ∙ turned)
            (subst
              (λ x.
                Yields x tail (loop_at fuel (out ++ c ∷ []) after (escape_json cs ++ b'"' ∷ tail)))
              (append_assoc out (c ∷ []) cs)
              (string_loop-escape_json fuel after cs tail (out ++ c ∷ [])
                (sym (ascii c cs small) ∙ valid) (omega (arith, enough))))
      | inr high ↦
          let big : 0x80 ≤ c = ground (arith, high) in
          let (w, valid_char, least, most) = character c cs big valid in
          let n : ℕ = continuations c in
          let front : length (take n cs) ≡ n = omega (arith, length-take n cs, w.fits) in
          Yields-via
            (ap (loop_at (suc fuel) out pos) (spelled c cs tail (ground (arith, high)) w.high)
              ∙ character_turn fuel c pos (take n cs) (escape_json (drop n cs) ++ b'"' ∷ tail) out
                  least (utf8_len-high c least most ∙ ap suc (sym front)) valid_char)
            (subst
              (λ x. Yields x tail (
                loop_at fuel (out ++ c ∷ take n cs) (pos + suc (length (take n cs)))
                  (escape_json (drop n cs) ++ b'"' ∷ tail)))
              (append_assoc out (c ∷ take n cs) (drop n cs)
                ∙ ap (λ x. out ++ c ∷ x) (take-append-drop n cs))
              (string_loop-escape_json fuel (pos + suc (length (take n cs))) (drop n cs) tail
                (out ++ c ∷ take n cs) w.rest (omega (arith, enough, length-drop n cs))))
    ]

length-escape_byte : (c : ℕ) → 0 < length (escape_byte c)
unfolding escape_byte
length-escape_byte c = ground arith

length-escape_json : (s : Bytes) → length s ≤ length (escape_json s)
unfolding escape_json
length-escape_json [] = omega arith
length-escape_json (c ∷ cs) = omega (
  arith,
  length-append (escape_byte c) (escape_json cs),
  length-escape_byte c,
  length-escape_json cs,
)

-- A string between quotes is read back as it was.
pub parse_string-quoted :
    (pos : ℕ) (s tail : Bytes)
    → utf8_valid s ≡ true
    → Yields s tail (parse_string (record { pos = pos; rest = quoted s ++ tail }))
unfolding parse_string expect
parse_string-quoted pos s tail valid = rw (append_assoc (escape_json s) (b'"' ∷ []) tail) (
    string_loop-escape_json (suc (length (escape_json s ++ b'"' ∷ tail))) (pos + 1) s tail [] valid
      (omega (arith, length-append (escape_json s) (b'"' ∷ tail), length-escape_json s)))
