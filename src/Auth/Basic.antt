-- ===== src/Auth/Basic.antt =====
-- crates/std-server/src/webui/sha256.rs: `basic_auth_ok`, and what it accepts.
use ferro_http.Base.{
  ℕ, zero, suc, ◌/◌, ◌%◌, ◌≤◌, ◌≡◌, refl, sym, ap, ◌∙◌, ◌↔◌, inl, inr, Bool, true, false, ◌&&◌,
  ◌||◌, Option, none, some, [], ◌∷◌, arith, ◌==◌, if◌then◌else◌, ==_iff, Bool-cases, length, Bytes,
  codes, is_empty, strip_prefix, split_once, utf8_valid, trim,
}
use mathlib.Core.Bool.{false≢true}
use mathlib.Core.Path.{subst}
use Prim.Native.Nat.{bit_or, bit_xor, digits, differ, max, bit_xor-bitwise, bit_or-bitwise}
use ferro_http.Base.Text.Utf8.{both_true, true_both}
use ferro_http.Base.Optional.{◌>>=◌}
use ferro_http.Auth.{base64_decode, gathered, constant_time_eq}
use ferro_http.Auth.Sha256.{sha256_hex}

-- The user and the password of the header's value.
unfoldable pub credentials : Bytes → Option (Bytes × Bytes)
credentials header = do
  rest ← strip_prefix header (codes "Basic ")
  decoded ← base64_decode (trim rest)
  if utf8_valid decoded then split_once b':' decoded else none

-- The comparisons of the credentials that were found.
unfoldable pub compared : Bytes → Bytes → Option (Bytes × Bytes) → Bool
compared username password_sha256 none = false
compared username password_sha256 (some (user, pass)) =
    constant_time_eq user username && constant_time_eq (sha256_hex pass) password_sha256

unfoldable pub basic_auth_ok : Bytes → Bytes → Bytes → Bool
basic_auth_ok header username password_sha256 =
    if is_empty username || is_empty password_sha256
    then false
    else compared username password_sha256 (credentials header)

differ-zero : (x y : ℕ) → differ x y ≡ 0 → x ≡ y
differ-zero zero y h = omega (arith, h)
differ-zero (suc x) zero h = omega (arith, h)
differ-zero (suc x) (suc y) h = ap suc (differ-zero x y h)

differ_self : (x : ℕ) → differ x x ≡ 0
differ_self zero = refl
differ_self (suc x) = differ_self x

digits-zero : (n a b : ℕ) → a ≤ n → digits (λ x. x) differ n a b ≡ 0 → a ≡ b
digits-zero zero a b small h = omega (arith, small, h)
digits-zero (suc n) zero b small h = omega (arith, h)
digits-zero (suc n) (suc a) b small h =
    let high : digits (λ x. x) differ n (suc a / 2) (b / 2) ≡ 0 = omega (arith, h) in
    let low : differ (suc a % 2) (b % 2) ≡ 0 = omega (arith, h) in
    let same_high = digits-zero n (suc a / 2) (b / 2) (omega (arith, small)) high in
    let same_low = differ-zero (suc a % 2) (b % 2) low in omega (arith, same_high, same_low)

digits_self : (n a : ℕ) → a ≤ n → digits (λ x. x) differ n a a ≡ 0
digits_self zero a small = omega (arith, small)
digits_self (suc n) zero small = refl
digits_self (suc n) (suc a) small =
    omega (arith, digits_self n (suc a / 2) (omega (arith, small)), differ_self (suc a % 2))

bit_xor_self : (x : ℕ) → bit_xor x x ≡ 0
bit_xor_self x = (λ i. bit_xor-bitwise x x i) ∙ digits_self x x (omega arith)

bit_xor-zero : (x y : ℕ) → bit_xor x y ≡ 0 → x ≡ y
bit_xor-zero x y h = digits-zero x x y (omega arith) (sym (λ i. bit_xor-bitwise x y i) ∙ h)

digits-max-zero : (n a b : ℕ) → a ≤ n → digits (λ x. x) max n a b ≡ 0 → (a ≡ 0) × (b ≡ 0)
digits-max-zero zero a b small h = (omega (arith, small), h)
digits-max-zero (suc n) zero b small h = (refl, h)
digits-max-zero (suc n) (suc a) b small h =
    let high : digits (λ x. x) max n (suc a / 2) (b / 2) ≡ 0 = omega (arith, h) in
    let low : max (suc a % 2) (b % 2) ≡ 0 = omega (arith, h) in
    let (a_high, b_high) = digits-max-zero n (suc a / 2) (b / 2) (omega (arith, small)) high in
    (omega (arith, a_high, low), omega (arith, b_high, low))

bit_or-zero : (x y : ℕ) → bit_or x y ≡ 0 → (x ≡ 0) × (y ≡ 0)
bit_or-zero x y h = digits-max-zero x x y (omega arith) (sym (λ i. bit_or-bitwise x y i) ∙ h)

gathered-zero :
    (diff : ℕ) (xs ys : Bytes)
    → length xs ≡ length ys
    → gathered diff xs ys ≡ 0
    → (diff ≡ 0) × (xs ≡ ys)
unfolding gathered
gathered-zero diff [] [] len h = (h, refl)
gathered-zero diff [] (y ∷ ys) len h = absurd (omega (arith, len))
gathered-zero diff (x ∷ xs) [] len h = absurd (omega (arith, len))
gathered-zero diff (x ∷ xs) (y ∷ ys) len h =
    let (both, same) = gathered-zero (bit_or diff (bit_xor x y)) xs ys (omega (arith, len)) h in
    let (none_yet, equal) = bit_or-zero diff (bit_xor x y) both in
    (none_yet, rw (bit_xor-zero x y equal, same) refl)

gathered_self : (xs : Bytes) → gathered 0 xs xs ≡ 0
unfolding gathered
gathered_self [] = refl
gathered_self (x ∷ xs) = rw (bit_xor_self x) (gathered_self xs)

-- The comparison without an early exit is equality.
pub constant_time_eq_iff : (a b : Bytes) → (constant_time_eq a b ≡ true) ↔ (a ≡ b)
unfolding constant_time_eq
constant_time_eq_iff a b = (
  λ h. elim (Bool-cases (length a == length b)) [
    | inl len ↦
        (gathered-zero 0 a b (ground (arith, len)) ((==_iff (gathered 0 a b) 0).0 (rw len at h))).1
    | inr other ↦ absurd (false≢true (rw other at h))
  ],
  λ e. subst (λ x. constant_time_eq a x ≡ true) e (rw (same_length a, gathered_self a) refl),
)
  where
    same_length : (a : Bytes) → (length a == length a) ≡ true
    same_length a = ground arith

neither : (a b : Bool) → (a || b) ≡ false → (a ≡ false) × (b ≡ false)
neither true b h = cc
neither false b h = (refl, h)

module _ (username password_sha256 : Bytes) where
  compared_sound :
      (found : Option (Bytes × Bytes))
      → compared username password_sha256 found ≡ true
      → (pass : Bytes) × (found ≡ some (username, pass)) × (sha256_hex pass ≡ password_sha256)
  unfolding compared
  compared_sound none h = cc
  compared_sound (some (user, pass)) h =
      let (same_user, same_hash) =
        both_true (constant_time_eq user username)
          (constant_time_eq (sha256_hex pass) password_sha256) h in
      (
        pass,
        ap (λ x. some (x, pass)) ((constant_time_eq_iff user username).0 same_user),
        (constant_time_eq_iff (sha256_hex pass) password_sha256).0 same_hash,
      )

  compared_complete :
      (pass : Bytes)
      → sha256_hex pass ≡ password_sha256
      → compared username password_sha256 (some (username, pass)) ≡ true
  unfolding compared
  compared_complete pass e =
      true_both ((constant_time_eq_iff username username).1 refl)
        ((constant_time_eq_iff (sha256_hex pass) password_sha256).1 e)

-- The credentials of a request are accepted exactly if a user and a password are configured, the
-- header gives that user with some password, and the SHA-256 of the password is the stored digest.
pub basic_auth_ok_iff :
    (header username password_sha256 : Bytes)
    → (basic_auth_ok header username password_sha256 ≡ true) ↔ (
        (is_empty username ≡ false)
        × (is_empty password_sha256 ≡ false)
        × (pass : Bytes) × (credentials header ≡ some (username, pass))
        × (sha256_hex pass ≡ password_sha256))
unfolding basic_auth_ok
basic_auth_ok_iff header username password_sha256 = (
  λ h. elim (Bool-cases (is_empty username || is_empty password_sha256)) [
    | inl empty ↦ absurd (false≢true (rw empty at h))
    | inr given ↦
        let (user_given, hash_given) =
          neither (is_empty username) (is_empty password_sha256) given in
        let found = compared_sound username password_sha256 (credentials header) (rw given at h) in
        (user_given, hash_given, found.0, found.1, found.2)
  ],
  λ (user_given, hash_given, pass, found, hash).
      rw (user_given, hash_given, found) (compared_complete username password_sha256 pass hash),
)
