-- ===== src/Config/Escapes.antt =====
-- crates/core/src/config.rs and json.rs: a byte that the writer escapes is read back.
use ferro_http.Base.{
  ℕ, suc, ◌+◌, ◌*◌, ◌/◌, ◌%◌, ◌^◌, ◌≤◌, ◌<◌, ◌≡◌, refl, sym, ap, ◌∙◌, inl, inr, true, false, some,
  [], ◌∷◌, ◌++◌, arith, ltb, leb, ◌==◌, if◌then◌else◌, ==_iff, Bool-cases, length, take, drop,
  Bytes, codes, utf8_valid,
}
use mathlib.Core.Path.{subst}
use ferro_http.Base.Text.Utf8.{ascii}
use ferro_http.Json.{Parser, Parser, Parser, ok}
use ferro_http.Json.Text.{
  utf8_len, simple_escape, escape_of, parse_escape, verbatim, string_turn, string_loop, utf8_len,
  simple_escape, escape_of, parse_escape, verbatim, string_turn, string_loop, read_hex, read_hex4,
  scalar, from_u32, encode_utf8, parse_unicode_escape, utf8_len, to_digit_16, read_hex, read_hex4,
  scalar, from_u32, encode_utf8, parse_unicode_escape, simple_escape, escape_of, parse_escape,
  verbatim, string_turn, string_loop,
}
use ferro_http.Config.Write.{escape_byte, escape_byte, escape_byte, hex2, hex2, escape_byte}

digit_back : (d : ℕ) → d < 16 → to_digit_16 (if ltb d 10 then d + 48 else d + 87) ≡ some d
unfolding to_digit_16
digit_back d small = ground arith

hex_step :
    (n value b d pos : ℕ) (tail : Bytes)
    → to_digit_16 b ≡ some d
    → read_hex (suc n) value (record { pos = pos; rest = b ∷ tail })
      ≡ read_hex n ((value * 16 + d) % 2 ^ 16) (record { pos = pos + 1; rest = tail })
unfolding read_hex
hex_step n value b d pos tail e = rw e refl

module _ (c : ℕ) (small : c < 0x20) where
  high_digit : to_digit_16 (c / 16 + 48) ≡ some (c / 16)
  unfolding to_digit_16
  high_digit = ground (arith, small)

  hex_back :
      (pos : ℕ) (tail : Bytes)
      → read_hex4 (record { pos = pos; rest = hex2 c ++ tail })
        ≡ ok c (record { pos = pos + 1 + 1 + 1 + 1; rest = tail })
  unfolding read_hex4 read_hex to_digit_16
  hex_back pos tail =
      hex_step 3 0 48 0 pos (48 ∷ high ∷ low ∷ tail) refl
      ∙ hex_step 2 0 48 0 (pos + 1) (high ∷ low ∷ tail) refl
      ∙ hex_step 1 0 high (c / 16) (pos + 1 + 1) (low ∷ tail) high_digit
      ∙ hex_step 0 ((0 * 16 + c / 16) % 2 ^ 16) low (c % 16) (pos + 1 + 1 + 1) tail
          (digit_back (c % 16) (omega arith))
      ∙ ap (λ x. ok x (record { pos = pos + 1 + 1 + 1 + 1; rest = tail })) back
    where
      high : ℕ
      high = c / 16 + 48

      low : ℕ
      low = if ltb (c % 16) 10 then c % 16 + 48 else c % 16 + 87

      back : ((0 * 16 + c / 16) % 2 ^ 16 * 16 + c % 16) % 2 ^ 16 ≡ c
      back = omega arith

  scalar_back : (p : Parser) → scalar c p ≡ ok c p
  unfolding scalar
  scalar_back p = ground (arith, small)

  char_back : from_u32 c ≡ some c
  unfolding from_u32
  char_back = ground (arith, small)

  one_byte : encode_utf8 c ≡ c ∷ []
  unfolding encode_utf8
  one_byte = ground (arith, small)

  -- A control character is written by its code in four digits.
  unicode_back :
      (pos : ℕ) (tail out : Bytes)
      → parse_unicode_escape (record { pos = pos; rest = hex2 c ++ tail }) out
        ≡ ok (out ++ c ∷ []) (record { pos = pos + 1 + 1 + 1 + 1; rest = tail })
  unfolding parse_unicode_escape
  unicode_back pos tail out =
      rw
        (
          hex_back pos tail,
          scalar_back (record { pos = pos + 1 + 1 + 1 + 1; rest = tail }),
          char_back,
          one_byte,
        )
        refl

-- One turn of the loop reads a whole character that stands for itself.
pub verbatim_turn :
    (fuel c n pos : ℕ) (cs out : Bytes)
    → (c == b'"') ≡ false
    → (c == b'\\') ≡ false
    → ltb c 0x20 ≡ false
    → utf8_len c ≡ suc n
    → n ≤ length cs
    → utf8_valid (c ∷ take n cs) ≡ true
    → string_loop (suc fuel) out (record { pos = pos; rest = c ∷ cs })
      ≡ string_loop fuel (out ++ c ∷ take n cs) (record { pos = pos + suc n; rest = drop n cs })
unfolding string_loop string_turn verbatim
verbatim_turn fuel c n pos cs out quote slash control len fits valid =
    rw (quote, slash, printable, len, nonzero, long, valid) refl
  where
    printable : leb c 0x1F ≡ false
    printable = ground (arith, control)

    nonzero : (suc n == 0) ≡ false
    nonzero = ground arith

    long : ltb (suc (length cs)) (suc n) ≡ false
    long = ground (arith, fits)

control_turn :
    (fuel c pos : ℕ) (tail out : Bytes)
    → c < 0x20
    → string_loop (suc fuel) out (record { pos = pos; rest = codes "\\u" ++ hex2 c ++ tail })
      ≡ string_loop fuel (out ++ c ∷ []) (record { pos = pos + 1 + 1 + 1 + 1 + 1 + 1; rest = tail })
unfolding string_loop string_turn parse_escape escape_of simple_escape
control_turn fuel c pos tail out small = rw (unicode_back c small (pos + 1 + 1) tail out) refl

-- One turn of the loop reads an ASCII byte back.
pub byte_back :
    (fuel c pos : ℕ) (tail out : Bytes)
    → c < 0x80
    → (pos' : ℕ) × (string_loop (suc fuel) out (record { pos = pos; rest = escape_byte c ++ tail })
        ≡ string_loop fuel (out ++ c ∷ []) (record { pos = pos'; rest = tail }))
unfolding escape_byte string_loop string_turn parse_escape escape_of simple_escape utf8_len
    utf8_valid
byte_back fuel c pos tail out low = elim (Bool-cases (c == b'"')) [
  | inl quote ↦ same b'"' quote (pos + 1 + 1, refl)
  | inr a ↦ elim (Bool-cases (c == b'\\')) [
    | inl slash ↦ same b'\\' slash (pos + 1 + 1, refl)
    | inr b ↦ elim (Bool-cases (c == b'\n')) [
      | inl newline ↦ same b'\n' newline (pos + 1 + 1, refl)
      | inr d ↦ elim (Bool-cases (c == b'\r')) [
        | inl return ↦ same b'\r' return (pos + 1 + 1, refl)
        | inr e ↦ elim (Bool-cases (c == b'\t')) [
          | inl tab ↦ same b'\t' tab (pos + 1 + 1, refl)
          | inr f ↦ elim (Bool-cases (ltb c 0x20)) [
            | inl control ↦ (
              pos + 1 + 1 + 1 + 1 + 1 + 1,
              rw (a, b, d, e, f, control)
                  (control_turn fuel c pos tail out (ground (arith, control))),
            )
            | inr g ↦ (
              pos + 1,
              rw (a, b, d, e, f, g)
                  (verbatim_turn fuel c 0 pos tail out a b g (ground (arith, low)) (omega arith)
                    (rw (ascii c [] low) refl)),
            )
          ]
        ]
      ]
    ]
  ]
]
  where
    Back : ℕ → Type 0
    Back x =
        (pos' : ℕ) × (string_loop (suc fuel) out
            (record { pos = pos; rest = escape_byte x ++ tail })
          ≡ string_loop fuel (out ++ x ∷ []) (record { pos = pos'; rest = tail }))

    same : (x : ℕ) → (c == x) ≡ true → Back x → Back c
    same x e b = subst Back (sym ((==_iff c x).0 e)) b
