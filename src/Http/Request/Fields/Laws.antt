-- ===== src/Http/Request/Fields/Laws.antt =====
-- What the header lines, the Host rule and the framing leave of a request.
use ferro_http.Http.Request.{
  Version, http10, http11, Header, ok, guard, header_is, too_many_headers, bad_host,
  malformed_header, >>=-eq-ok, guard-eq-ok,
}
use ferro_http.Base.{
  ℕ, ◌≤◌, ◌≡◌, inl, inr, true, false, not, some, List, [], ◌∷◌, ◌++◌, arith, ltb, ltb→lt,
  Option-cases, length, length-append, Bytes, codes, is_empty, all, filter, u64_max, is_ascii_digit,
  eq_ignore_ascii_case, split_once, trim, parse_uint,
}
use ferro_http.Http.Request.Scan.{is_token_byte}
use ferro_http.Http.Request.Scan.BareCr.{All, has_cr, has_cr-split_once, has_cr-trim_ows}
use ferro_http.Http.Request.Fields.{
  parse_header_line, parse_headers, max_headers, is_valid_host_value, validate_host, validate_hosts,
  Framing, fixed, chunked, framing_of, body_framing,
}

-- A field name is a token, and no field value holds a CR.
pub record IsField (h : Header) : Type 0 where
  pub named : is_empty h.name ≡ false
  pub token : all is_token_byte h.name ≡ true
  pub no_cr : has_cr h.value ≡ false

parse_header_line-IsField :
    (line : Bytes) {h : Header} → has_cr line ≡ false → parse_header_line line ≡ ok h → IsField h
unfolding parse_header_line
parse_header_line-IsField line {h} clean e = elim (Option-cases (split_once b':' line)) [
  | inl missed ↦ ground (arith, missed)
  | inr ((name, value), found) ↦
      let parts = has_cr-split_once b':' line found clean in
      ground (arith, found, has_cr-trim_ows value parts.1)
]

All-concat {ℓ κ} :
    {A : Type ℓ} (P : A → Type κ) (xs : List A) (x : A) → All P xs → P x → All P (xs ++ x ∷ [])
All-concat P [] x h p = (p, tt)
All-concat P (y ∷ xs) x h p = (h.0, All-concat P xs x h.1 p)

pub parse_headers-IsField :
    (lines : List Bytes) (headers : List Header) {out : List Header}
    → All (λ line. has_cr line ≡ false) lines
    → All IsField headers
    → length headers ≤ max_headers
    → parse_headers lines headers ≡ ok out
    → All IsField out × (length out ≤ max_headers)
unfolding parse_headers
parse_headers-IsField [] headers clean fields few e = ground arith
parse_headers-IsField (line ∷ lines) headers clean fields few e =
    let (u, g, e1) = >>=-eq-ok (guard (not (is_empty line)) malformed_header) _ e in
    let (u1, room, e2) =
      >>=-eq-ok (guard (ltb (length headers) max_headers) too_many_headers) _ e1 in
    let (h, parsed, e3) = >>=-eq-ok (parse_header_line line) _ e2 in
    parse_headers-IsField lines (headers ++ h ∷ []) clean.1
      (All-concat IsField headers h fields (parse_header_line-IsField line clean.0 parsed))
      (omega (
        arith,
        ltb→lt (length headers) max_headers (guard-eq-ok _ _ room),
        length-append headers (h ∷ []),
      ))
      e3

-- The Host fields of a request that passed: one with a valid value, or none in HTTP/1.0.
abbrev pub HostsOk : List Header → Version → Type 0
HostsOk [] http10 = Unit
HostsOk [] http11 = ⊥
HostsOk (h ∷ []) version = is_valid_host_value h.value ≡ true
HostsOk (_ ∷ _ ∷ _) version = ⊥

validate_hosts-HostsOk :
    (hosts : List Header) (version : Version) {u : Unit {0}}
    → validate_hosts hosts version ≡ ok u
    → HostsOk hosts version
validate_hosts-HostsOk [] http10 e = tt
validate_hosts-HostsOk [] http11 e = cc
validate_hosts-HostsOk (h ∷ []) version e = guard-eq-ok (is_valid_host_value h.value) bad_host e
validate_hosts-HostsOk (_ ∷ _ ∷ _) version e = cc

pub validate_host-HostsOk :
    (headers : List Header) (version : Version) {u : Unit {0}}
    → validate_host headers version ≡ ok u
    → HostsOk (filter (header_is (codes "host")) headers) version
unfolding validate_host
validate_host-HostsOk headers version e = validate_hosts-HostsOk _ version e

-- What the framing rests on: no field of either kind, one Content-Length of digits that says the
-- length, or one Transfer-Encoding, `chunked`; never both.
abbrev pub FramedBy : List Header → List Header → Framing → Type 0
FramedBy [] [] f = f ≡ fixed 0
FramedBy [] (cl ∷ []) f =
    (n : ℕ) × (f ≡ fixed n)
    × (all is_ascii_digit (trim cl.value) ≡ true)
    × (parse_uint u64_max (trim cl.value) ≡ some n)
FramedBy [] (_ ∷ _ ∷ _) f = ⊥
FramedBy (te ∷ []) [] f =
    (f ≡ chunked) × (eq_ignore_ascii_case (trim te.value) (codes "chunked") ≡ true)
FramedBy (_ ∷ _ ∷ _) [] f = ⊥
FramedBy (_ ∷ _) (_ ∷ _) f = ⊥

framing_of-FramedBy :
    (tes cls : List Header) {f : Framing} → framing_of tes cls ≡ ok f → FramedBy tes cls f
unfolding framing_of
framing_of-FramedBy [] [] e = ground arith
framing_of-FramedBy [] (cl ∷ []) {f} e = elim (Option-cases (parse_uint u64_max (trim cl.value))) [
  | inl missed ↦ ground (arith, missed)
  | inr (n, found) ↦ (n, ground (arith, found), ground (arith, found), found)
]
framing_of-FramedBy [] (_ ∷ _ ∷ _) e = cc
framing_of-FramedBy (te ∷ []) [] e = ground arith
framing_of-FramedBy (_ ∷ _ ∷ _) [] e = cc
framing_of-FramedBy (_ ∷ _) (_ ∷ _) e = cc

pub body_framing-FramedBy :
    (headers : List Header) {f : Framing}
    → body_framing headers ≡ ok f
    → FramedBy
        (filter (header_is (codes "transfer-encoding")) headers)
        (filter (header_is (codes "content-length")) headers)
        f
unfolding body_framing
body_framing-FramedBy headers e = framing_of-FramedBy _ _ e
