-- ===== src/Http/Request/Line/Laws.antt =====
-- What a request line that was accepted is made of.
use ferro_http.Http.Request.{
  Version, ok, guard, ok_or, malformed_request_line, target_too_long, >>=-eq-ok, guard-eq-ok,
  ok_or-eq-ok, ok-injective,
}
use ferro_http.Base.{
  ℕ, ◌≤◌, ◌≡◌, ◌∙◌, inl, inr, Bool, true, false, not, some, [], ◌∷◌, ◌++◌, arith, leb, ◌==◌, leb→le,
  Bool-cases, Option-cases, length, Bytes, is_empty, any, split_once, utf8_valid,
}
use mathlib.Core.Path.{ap₂, subst}
use ferro_http.Http.Method.{Method, from_bytes, as_str, from_bytes_iff}
use ferro_http.Http.Request.Line.{parse_request_line, parse_method, parse_version, max_target_bytes}

abbrev pub has_space : Bytes → Bool
has_space = any (λ b. b == b' ')

split_once-rejoin :
    (d : ℕ) (xs : Bytes) {a b : Bytes} → split_once d xs ≡ some (a, b) → xs ≡ a ++ d ∷ b
unfolding split_once
split_once-rejoin d [] h = cc
split_once-rejoin d (x ∷ xs) {a} {b} h = elim (Bool-cases (x == d)) [
  | inl here ↦ ground (arith, here)
  | inr later ↦ elim (Option-cases (split_once d xs)) [
    | inl missed ↦ ground (arith, missed)
    | inr ((a', b'), found) ↦ ground (arith, found, split_once-rejoin d xs found)
  ]
]

split_once-free :
    (d : ℕ) (xs : Bytes) {a b : Bytes} → split_once d xs ≡ some (a, b) → any (λ c. c == d) a ≡ false
unfolding split_once
split_once-free d [] h = cc
split_once-free d (x ∷ xs) {a} {b} h = elim (Bool-cases (x == d)) [
  | inl here ↦ ground (arith, here)
  | inr later ↦ elim (Option-cases (split_once d xs)) [
    | inl missed ↦ ground (arith, missed)
    | inr ((a', b'), found) ↦ ground (arith, found, split_once-free d xs found)
  ]
]

-- The line is the method's own token, the target and a version token, with one space between two.
pub record IsRequestLine (line : Bytes) (m : Method) (target : Bytes) (v : Version) : Type 0 where
  pub version_tok : Bytes
  pub line_is : line ≡ as_str m ++ b' ' ∷ (target ++ b' ' ∷ version_tok)
  pub some_target : is_empty target ≡ false
  pub short_target : length target ≤ max_target_bytes
  pub target_text : utf8_valid target ≡ true
  pub target_no_space : has_space target ≡ false
  pub version_no_space : has_space version_tok ≡ false
  pub version_is : parse_version version_tok ≡ ok v

parse_method-eq-ok : (tok : Bytes) {m : Method} → parse_method tok ≡ ok m → tok ≡ as_str m
unfolding parse_method
parse_method-eq-ok tok {m} h = elim (Option-cases (from_bytes tok)) [
  | inl missed ↦ ground (arith, missed)
  | inr (m', found) ↦ ground (arith, found, (from_bytes_iff tok m').0 found)
]

pub parse_request_line-IsRequestLine :
    (line : Bytes) {m : Method} {target : Bytes} {v : Version}
    → parse_request_line line ≡ ok (m, target, v)
    → IsRequestLine line m target v
unfolding parse_request_line
parse_request_line-IsRequestLine line {m} {target} {v} e =
    let ((tok, rest), s1, e1) =
      >>=-eq-ok (ok_or (split_once b' ' line) malformed_request_line) _ e in
    let ((t, vt), s2, e2) = >>=-eq-ok (ok_or (split_once b' ' rest) malformed_request_line) _ e1 in
    let (u1, g1, e3) = >>=-eq-ok (guard (not (has_space vt)) malformed_request_line) _ e2 in
    let (m', pm, e4) = >>=-eq-ok (parse_method tok) _ e3 in
    let (u2, g2, e5) = >>=-eq-ok (guard (leb (length t) max_target_bytes) target_too_long) _ e4 in
    let (u3, g3, e6) = >>=-eq-ok (guard (utf8_valid t) malformed_request_line) _ e5 in
    let (u4, g4, e7) = >>=-eq-ok (guard (not (is_empty t)) malformed_request_line) _ e6 in
    let (v', pv, e8) = >>=-eq-ok (parse_version vt) _ e7 in
    let f1 = ok_or-eq-ok (split_once b' ' line) malformed_request_line s1 in
    let f2 = ok_or-eq-ok (split_once b' ' rest) malformed_request_line s2 in
    let same = ok-injective e8 in
    subst (λ (x : Method × Bytes × Version). IsRequestLine line x.0 x.1 x.2) same
      (record {
        version_tok = vt;
        line_is =
            split_once-rejoin b' ' line f1
            ∙ ap₂ (λ a b. a ++ b' ' ∷ b) (parse_method-eq-ok tok pm)
                (split_once-rejoin b' ' rest f2);
        some_target = ground (arith, guard-eq-ok (not (is_empty t)) malformed_request_line g4);
        short_target =
            leb→le _ _ (guard-eq-ok (leb (length t) max_target_bytes) target_too_long g2);
        target_text = guard-eq-ok (utf8_valid t) malformed_request_line g3;
        target_no_space = split_once-free b' ' rest f2;
        version_no_space =
            ground (arith, guard-eq-ok (not (has_space vt)) malformed_request_line g1);
        version_is = pv;
      })
