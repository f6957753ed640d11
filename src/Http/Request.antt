-- ===== src/Http/Request.antt =====
-- crates/core/src/http/request.rs: the data of requests and of parse results, and what a parsed
-- request answers about itself. The parser's parts are in the children.
use ferro_http.Base.{
  ℕ, zero, suc, ◌+◌, ◌-◌, ◌*◌, ◌/◌, ◌%◌, ◌^◌, ◌≤◌, ◌<◌, min, ◌≡◌, refl, sym, ap, ◌∙◌, ◌≢◌, ◌↔◌, ◌⊎◌,
  inl, inr, Bool, true, false, not, ◌&&◌, ◌||◌, Option, none, some, List, [], ◌∷◌, ◌++◌, map,
  append_assoc, append-nil, arith, ltb, leb, ◌==◌, if◌then◌else◌, ltb→lt, lt→ltb, leb→le, ==_iff,
  Bool-cases, Option-cases, length, get_elem?, get_or, replicate, take, drop, length-append,
  length-take, length-drop, take-append-drop, take-append, drop-append, Bytes, codes, within,
  bytes_eq, bytes_eq_iff, is_empty, all, any, filter, position, find, u64_max, u32_max,
  is_ascii_digit, is_ascii_alphabetic, is_ascii_alphanumeric, eq_ignore_ascii_case, starts_with,
  strip_prefix, split_once, split, utf8_valid, trim, parse_digits, parse_uint, dec_digits,
  print_dec, to_ascii_lowercase,
}
use ferro_http.Http.Method.{Method}
pub mod Message
pub mod Scan
pub mod Line
pub mod Fields
pub mod Chunk
pub mod Parse

pub data Version : Type 0 where
  http10 http11 : Version

pub record Header : Type 0 where
  pub name : Bytes
  pub value : Bytes

pub record Request : Type 0 where
  pub method : Method
  pub target : Bytes
  pub version : Version
  pub headers : List Header
  pub body : Bytes

pub data ParseError : Type 0 where
  head_too_large too_many_headers malformed_request_line unknown_method : ParseError
  target_too_long unsupported_version bare_cr bad_host malformed_header : ParseError
  bad_content_length conflicting_framing unsupported_transfer_encoding : ParseError
  malformed_chunk body_too_large : ParseError

-- What a call of the parser does: it returns, it returns an error, it panics (a slice out of range),
-- or the fuel of a loop of the model runs out.
pub data Result (A : Type 0) : Type 0 where
  ok : A → Result A
  err : ParseError → Result A
  panic : Result A
  out_of_fuel : Result A

infixl 5 ◌>>=◌ ◌>>◌
abbrev pub ◌>>=◌ : {A B : Type 0} → Result A → (A → Result B) → Result B
panic >>= next = panic
out_of_fuel >>= next = out_of_fuel
err e >>= next = err e
ok a >>= next = next a

-- `ok_or(e)?`
abbrev pub ok_or : {A : Type 0} → Option A → ParseError → Result A
ok_or none e = err e
ok_or (some a) e = ok a

abbrev pub ◌>>◌ : {A : Type 0} → Result (Unit {0}) → Result A → Result A
first >> rest = first >>= λ _. rest

-- `return Err(e)` where the test fails.
abbrev pub guard : Bool → ParseError → Result (Unit {0})
guard false e = err e
guard true e = ok tt

-- A chain that succeeds has succeeded in its first step.
pub >>=-eq-ok :
    {A B : Type 0} (first : Result A) (next : A → Result B) {b : B}
    → (first >>= next) ≡ ok b
    → (a : A) × (first ≡ ok a) × (next a ≡ ok b)
>>=-eq-ok panic next h = cc
>>=-eq-ok out_of_fuel next h = cc
>>=-eq-ok (err e) next h = cc
>>=-eq-ok (ok a) next h = (a, refl, h)

pub ok-injective : {A : Type 0} {a b : A} → ok a ≡ ok b → a ≡ b
ok-injective e = cc

pub guard-eq-ok : (b : Bool) (e : ParseError) {u : Unit {0}} → guard b e ≡ ok u → b ≡ true
guard-eq-ok true e h = refl
guard-eq-ok false e h = cc

pub ok_or-eq-ok :
    {A : Type 0} (o : Option A) (e : ParseError) {a : A} → ok_or o e ≡ ok a → o ≡ some a
ok_or-eq-ok none e h = cc
ok_or-eq-ok (some b) e h = cc

abbrev pub header_is : Bytes → Header → Bool
header_is name h = eq_ignore_ascii_case h.name name

-- `Request::header`
unfoldable pub find_header : Bytes → List Header → Option Bytes
find_header name [] = none
find_header name (h ∷ hs) = if header_is name h then some h.value else find_header name hs

unfoldable pub header : Request → Bytes → Option Bytes
header r name = find_header name r.headers

-- The scheme test of `absolute_form_path`.
pub valid_scheme : Bytes → Bool
valid_scheme [] = false
valid_scheme (c ∷ cs) =
    is_ascii_alphabetic c
    && all (λ b. is_ascii_alphanumeric b || b == b'+' || b == b'-' || b == b'.') (c ∷ cs)

-- `find("://")`: what stands before it, and what stands behind it.
unfoldable pub split_scheme : Bytes → Option (Bytes × Bytes)
split_scheme [] = none
split_scheme (c ∷ cs) =
    if starts_with (c ∷ cs) (codes "://")
    then some ([], drop 3 (c ∷ cs))
    else elim (split_scheme cs) [ none ↦ none | some (a, b) ↦ some (c ∷ a, b) ]

-- From the first `/` on, or `/` where there is none.
pub path_of_authority : Bytes → Bytes
path_of_authority [] = codes "/"
path_of_authority (c ∷ cs) = if c == b'/' then c ∷ cs else path_of_authority cs

unfoldable pub absolute_form_path : Bytes → Option Bytes
unfolding split_scheme valid_scheme path_of_authority
absolute_form_path target = elim (split_scheme target) [
  | none ↦ none
  | some (scheme, rest) ↦ if valid_scheme scheme then some (path_of_authority rest) else none
]

-- `target.split_once('?')`: what stands before the query.
abbrev before_query : Bytes → Bytes
before_query target = elim (split_once b'?' target) [ none ↦ target | some (p, _) ↦ p ]

unfoldable pub path : Request → Bytes
path r = before_query (elim (absolute_form_path r.target) [ none ↦ r.target | some p ↦ p ])

abbrev is_http11 : Version → Bool
is_http11 http10 = false
is_http11 http11 = true

unfoldable pub keep_alive : Request → Bool
keep_alive r = elim (header r (codes "connection")) [
  | none ↦ is_http11 r.version
  | some v ↦
      if eq_ignore_ascii_case v (codes "close")
      then false
      else if eq_ignore_ascii_case v (codes "keep-alive")
      then true
      else is_http11 r.version
]
