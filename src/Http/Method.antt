-- ===== src/Http/Method.antt =====
-- crates/core/src/http/method.rs: request methods and their tokens.
use ferro_http.Base.{
  ℕ, ◌≡◌, refl, ◌↔◌, Bool, true, false, Option, none, some, arith, ◌==◌, if◌then◌else◌, Bytes,
  codes, bytes_eq, bytes_eq_iff,
}

pub data Method : Type 0 where
  get head post put patch delete options connect trace query : Method

-- The source's `==` on methods.
pub code_of : Method → ℕ
code_of get = 0
code_of head = 1
code_of post = 2
code_of put = 3
code_of patch = 4
code_of delete = 5
code_of options = 6
code_of connect = 7
code_of trace = 8
code_of query = 9

unfoldable pub method_eq : Method → Method → Bool
unfolding code_of
method_eq a b = code_of a == code_of b

unfoldable pub from_bytes : Bytes → Option Method
from_bytes token =
    if bytes_eq token (codes "GET")
    then some get
    else if bytes_eq token (codes "HEAD")
    then some head
    else if bytes_eq token (codes "POST")
    then some post
    else if bytes_eq token (codes "PUT")
    then some put
    else if bytes_eq token (codes "PATCH")
    then some patch
    else if bytes_eq token (codes "DELETE")
    then some delete
    else if bytes_eq token (codes "OPTIONS")
    then some options
    else if bytes_eq token (codes "CONNECT")
    then some connect
    else if bytes_eq token (codes "TRACE")
    then some trace
    else if bytes_eq token (codes "QUERY")
    then some query
    else none

unfoldable pub as_str : Method → Bytes
as_str get = codes "GET"
as_str head = codes "HEAD"
as_str post = codes "POST"
as_str put = codes "PUT"
as_str patch = codes "PATCH"
as_str delete = codes "DELETE"
as_str options = codes "OPTIONS"
as_str connect = codes "CONNECT"
as_str trace = codes "TRACE"
as_str query = codes "QUERY"

unfoldable pub is_head : Method → Bool
is_head head = true
is_head _ = false

pub method_eq_iff : (a b : Method) → (method_eq a b ≡ true) ↔ (a ≡ b)
unfolding method_eq code_of
method_eq_iff a b = ground arith

from_bytes_sound : (token : Bytes) (m : Method) → from_bytes token ≡ some m → token ≡ as_str m
unfolding from_bytes as_str
from_bytes_sound token m h = ground (
  arith,
  bytes_eq_iff token (codes "GET"),
  bytes_eq_iff token (codes "HEAD"),
  bytes_eq_iff token (codes "POST"),
  bytes_eq_iff token (codes "PUT"),
  bytes_eq_iff token (codes "PATCH"),
  bytes_eq_iff token (codes "DELETE"),
  bytes_eq_iff token (codes "OPTIONS"),
  bytes_eq_iff token (codes "CONNECT"),
  bytes_eq_iff token (codes "TRACE"),
  bytes_eq_iff token (codes "QUERY"),
)

from_bytes-as_str : (m : Method) → from_bytes (as_str m) ≡ some m
unfolding from_bytes as_str bytes_eq
from_bytes-as_str get = refl
from_bytes-as_str _ = refl

-- A token is read as a method exactly when it is that method's own token, byte by byte: tokens are
-- case-sensitive, and no two methods share one.
pub from_bytes_iff : (token : Bytes) (m : Method) → (from_bytes token ≡ some m) ↔ (token ≡ as_str m)
from_bytes_iff token m = (from_bytes_sound token m, λ e. rw e (from_bytes-as_str m))
