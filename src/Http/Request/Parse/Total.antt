-- ===== src/Http/Request/Parse/Total.antt =====
-- The parser ends on every input, and when it panics.
use ferro_http.Http.Request.{
  Version, http10, http11, Header, Result, ok, err, panic, out_of_fuel, ◌>>=◌, guard, ok_or,
  header_is, ParseError, head_too_large,
}
use ferro_http.Base.{
  ℕ, zero, suc, ◌+◌, ◌≤◌, ◌<◌, ◌≡◌, refl, ◌≢◌, inl, inr, Bool, true, false, Option, none, some,
  List, [], ◌∷◌, arith, leb, if◌then◌else◌, Option-cases, length, take, drop, length-drop, Bytes,
  codes, filter, u64_max, wrapping_add,
}
use ferro_http.Http.Request.Parse.{
  need_more, Head, parse_head_lines, lines_of, expect_action, parse_head, parse_body, parse_with,
  max_head_bytes,
}
use ferro_http.Http.Request.Chunk.{decode_chunked}
use ferro_http.Http.Request.Fields.{
  parse_headers, validate_host, Framing, fixed, chunked, body_framing, framing_of,
  parse_header_line, validate_hosts,
}
use ferro_http.Http.Request.Line.{parse_request_line, parse_method, parse_version}
use ferro_http.Http.Request.Scan.Search.{find_subslice-le}
use ferro_http.Http.Request.Scan.{find_subslice, crlf, crlf_crlf, split_crlf, split_crlf_from}
use ferro_http.Http.Method.{from_bytes}
use ferro_http.Http.Request.Chunk.Total.{>>=-ne-out_of_fuel, decode_chunked-ne-out_of_fuel}
use ferro_http.Http.Request.Parse.Inside.{parse_head-HeadParts}

-- A call that returns: a value or an error, neither a panic nor a loop without end.
pub data Returns {A : Type 0} : Result A → Type 0 where
  value : {a : A} → Returns (ok a)
  error : {e : ParseError} → Returns (err e)

>>=-Returns :
    {A B : Type 0} {m : Result A} {f : A → Result B}
    → Returns m
    → ((a : A) → Returns (f a))
    → Returns (m >>= f)
>>=-Returns (value {a}) k = k a
>>=-Returns (error {e}) k = error

guard-Returns : (b : Bool) (e : ParseError) → Returns (guard b e)
guard-Returns true e = value
guard-Returns false e = error

ok_or-Returns : {A : Type 0} (o : Option A) (e : ParseError) → Returns (ok_or o e)
ok_or-Returns none e = error
ok_or-Returns (some a) e = value

if-Returns :
    {A : Type 0} (b : Bool) {m n : Result A} → Returns m → Returns n → Returns (if b then m else n)
if-Returns true r q = r
if-Returns false r q = q

pub Returns-ne-panic : {A : Type 0} {m : Result A} → Returns m → m ≢ panic
Returns-ne-panic value = λ h. cc
Returns-ne-panic error = λ h. cc

pub Returns-ne-out_of_fuel : {A : Type 0} {m : Result A} → Returns m → m ≢ out_of_fuel
Returns-ne-out_of_fuel value = λ h. cc
Returns-ne-out_of_fuel error = λ h. cc

ruleset returning = (>>=-Returns, guard-Returns, ok_or-Returns, if-Returns, value, error)

parse_version-Returns : (tok : Bytes) → Returns (parse_version tok)
unfolding parse_version
parse_version-Returns tok = search returning depth 20

parse_method-Returns : (tok : Bytes) → Returns (parse_method tok)
unfolding parse_method
parse_method-Returns tok = elim (Option-cases (from_bytes tok)) [
  | inl missed ↦ rw (missed, parse_method) (search returning)
  | inr (m, found) ↦ rw (found, parse_method) value
]

parse_request_line-Returns : (line : Bytes) → Returns (parse_request_line line)
unfolding parse_request_line
parse_request_line-Returns line =
    search (returning, parse_version-Returns, parse_method-Returns) depth 20

parse_header_line-Returns : (line : Bytes) → Returns (parse_header_line line)
unfolding parse_header_line
parse_header_line-Returns line = search returning depth 20

parse_headers-Returns :
    (lines : List Bytes) (headers : List Header) → Returns (parse_headers lines headers)
unfolding parse_headers
parse_headers-Returns [] headers = value
parse_headers-Returns (line ∷ lines) headers =
    search (returning, parse_header_line-Returns, parse_headers-Returns lines) depth 12

validate_hosts-Returns : (hosts : List Header) (v : Version) → Returns (validate_hosts hosts v)
validate_hosts-Returns [] http10 = value
validate_hosts-Returns [] http11 = error
validate_hosts-Returns (h ∷ []) v = guard-Returns _ _
validate_hosts-Returns (_ ∷ _ ∷ _) v = error

framing_of-Returns : (tes cls : List Header) → Returns (framing_of tes cls)
unfolding framing_of
framing_of-Returns [] [] = value
framing_of-Returns [] (cl ∷ []) = search returning depth 20
framing_of-Returns [] (_ ∷ _ ∷ _) = error
framing_of-Returns (te ∷ []) [] = search returning
framing_of-Returns (_ ∷ _ ∷ _) [] = error
framing_of-Returns (_ ∷ _) (_ ∷ _) = error

parse_head_lines-Returns : (lines : List Bytes) → Returns (parse_head_lines lines)
unfolding parse_head_lines validate_host body_framing
parse_head_lines-Returns [] = error
parse_head_lines-Returns (line ∷ lines) = >>=-Returns (parse_request_line-Returns line) λ (m, t, v).
    >>=-Returns (parse_headers-Returns lines []) λ hs.
      >>=-Returns (validate_hosts-Returns (filter (header_is (codes "host")) hs) v) λ _.
        >>=-Returns
          (framing_of-Returns (filter (header_is (codes "transfer-encoding")) hs)
            (filter (header_is (codes "content-length")) hs))
          λ f. value

-- Each turn of the loop that cuts the lines leaves two bytes fewer at least.
split_crlf_from_total :
    (f : ℕ) (xs : Bytes) → length xs < f → (ls : List Bytes) × (split_crlf_from f xs ≡ some ls)
unfolding split_crlf_from
split_crlf_from_total zero xs enough = absurd (omega arith)
split_crlf_from_total (suc f) xs enough = elim (Option-cases (find_subslice xs crlf)) [
  | inl missed ↦ rw (missed, split_crlf_from) (xs ∷ [], refl)
  | inr (i, found) ↦
      let (ls, cut) =
        split_crlf_from_total f (drop (i + 2) xs)
          (omega (arith, length-drop (i + 2) xs, find_subslice-le xs crlf found)) in
      rw (found, split_crlf_from) (take i xs ∷ ls, rw cut refl)
]

split_crlf_total : (block : Bytes) → (ls : List Bytes) × (split_crlf block ≡ some ls)
unfolding split_crlf
split_crlf_total block = split_crlf_from_total (suc (length block)) block (omega arith)

split_crlf-Returns : (block : Bytes) → Returns (lines_of (split_crlf block))
split_crlf-Returns block = let (ls, cut) = split_crlf_total block in rw cut value

-- The search for an `Expect` header ends.
pub expect_action-ne-none : (buf : Bytes) → expect_action buf ≢ none
unfolding expect_action
expect_action-ne-none buf h = elim (Option-cases (find_subslice buf crlf_crlf)) [
  | inl missed ↦ absurd (ground (arith, missed, h))
  | inr (end, found) ↦
      let (ls, cut) = split_crlf_total (take end buf) in absurd (ground (arith, found, cut, h))
]

pub parse_head-Returns : (buf : Bytes) (end : ℕ) → Returns (parse_head buf end)
unfolding parse_head
parse_head-Returns buf end =
    search (returning, split_crlf-Returns, parse_head_lines-Returns) depth 10

parse_body-ne-out_of_fuel :
    (buf : Bytes) (max_body head_end : ℕ) (h : Head) (f : Framing)
    → parse_body buf max_body head_end h f ≢ out_of_fuel
unfolding parse_body
parse_body-ne-out_of_fuel buf max_body head_end h (fixed len) = ground arith
parse_body-ne-out_of_fuel buf max_body head_end h chunked =
    >>=-ne-out_of_fuel (decode_chunked (drop head_end buf) max_body) _
      (decode_chunked-ne-out_of_fuel (drop head_end buf) max_body) (λ o e. λ h. cc)

-- The loops of the parser end on every buffer: the fuel that they are given is never used up.
pub parse_with-ne-out_of_fuel : (buf : Bytes) (max_body : ℕ) → parse_with buf max_body ≢ out_of_fuel
unfolding parse_with
parse_with-ne-out_of_fuel buf max_body = elim (Option-cases (find_subslice buf crlf_crlf)) [
  | inl missed ↦ rw (missed, parse_with) (ground arith)
  | inr (end, found) ↦
      rw (found, parse_with)
        (>>=-ne-out_of_fuel (parse_head buf end) _
          (Returns-ne-out_of_fuel (parse_head-Returns buf end))
          (λ h e. parse_body-ne-out_of_fuel buf max_body (end + 4) h h.framing))
]

parse_body_fixed-ne-panic :
    (buf : Bytes) (max_body head_end : ℕ) (h : Head) (len : ℕ)
    → max_body + head_end ≤ u64_max
    → head_end ≤ length buf
    → parse_body buf max_body head_end h (fixed len) ≢ panic
unfolding parse_body wrapping_add
parse_body_fixed-ne-panic buf max_body head_end h len small inside = ground arith

-- Where the body limit leaves room for a head below `usize::MAX`, the parser can panic on a request
-- with a chunked body only.
pub parse_with_panic :
    (buf : Bytes) (max_body : ℕ)
    → max_body + max_head_bytes + 4 ≤ u64_max
    → parse_with buf max_body ≡ panic
    → (end : ℕ) × (h : Head) × (find_subslice buf crlf_crlf ≡ some end)
      × (parse_head buf end ≡ ok h)
      × (h.framing ≡ chunked)
unfolding parse_with
parse_with_panic buf max_body room e = elim (Option-cases (find_subslice buf crlf_crlf)) [
  | inl missed ↦
      let e' = rw (missed, parse_with) at e in
      absurd (
        Returns-ne-panic
          (>>=-Returns (guard-Returns (leb (length buf) max_head_bytes) head_too_large)
            (λ u. value {a = need_more}))
          e')
  | inr (end, found) ↦
      let e' = rw (found, parse_with) at e in
      in_head end found (parse_head buf end) refl (parse_head-Returns buf end) e'
]
  where
    in_framing :
        (end : ℕ) (h : Head) (f : Framing)
        → end ≤ max_head_bytes
        → end + 4 ≤ length buf
        → parse_body buf max_body (end + 4) h f ≡ panic
        → f ≡ chunked
    in_framing end h (fixed len) small inside e =
        absurd (parse_body_fixed-ne-panic buf max_body (end + 4) h len (omega arith) inside e)
    in_framing end h chunked small inside e = refl

    in_head :
        (end : ℕ)
        → find_subslice buf crlf_crlf ≡ some end
        → (m : Result Head) → parse_head buf end ≡ m
        → Returns m
        → (m >>= λ h. parse_body buf max_body (end + 4) h h.framing) ≡ panic
        → (i : ℕ) × (h : Head) × (find_subslice buf crlf_crlf ≡ some i)
          × (parse_head buf i ≡ ok h)
          × (h.framing ≡ chunked)
    in_head end found (ok h) head_ok r e =
        let parts = parse_head-HeadParts buf end head_ok in
        (
          end,
          h,
          found,
          head_ok,
          in_framing end h h.framing parts.small (find_subslice-le buf crlf_crlf found) e,
        )
    in_head end found (err x) head_ok r e = cc
    in_head end found panic head_ok r e = absurd (Returns-ne-panic r refl)
    in_head end found out_of_fuel head_ok r e = cc
