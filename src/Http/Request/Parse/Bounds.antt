-- ===== src/Http/Request/Parse/Bounds.antt =====
-- How many bytes a request takes from the buffer, and how large its body is.
use ferro_http.Http.Request.{
  Header, Request, ok, guard, header_is, body_too_large, >>=-eq-ok, guard-eq-ok,
}
use ferro_http.Base.{
  ℕ, ◌+◌, ◌-◌, ◌*◌, ◌≤◌, ◌≡◌, refl, sym, ap, ◌∙◌, false, some, List, [], ◌∷◌, arith, ltb, leb, ◌==◌,
  if◌then◌else◌, leb→le, length, take, drop, length-take, length-drop, Bytes, codes, filter,
  u64_max, trim, parse_digits, parse_uint, wrapping_add,
}
use ferro_http.Http.Request.Scan.{find_subslice, crlf_crlf, slice}
use ferro_http.Http.Request.Scan.Search.{find_subslice-le}
use ferro_http.Http.Request.Fields.{Framing, fixed, chunked}
use ferro_http.Http.Request.Chunk.{ChunkOutcome, partial, complete, decode_chunked}
use ferro_http.Http.Request.Parse.{done, Head, finish, parse_body, parse_with}
use ferro_http.Http.Request.Parse.{after_chunks}
use ferro_http.Http.Request.Chunk.Bounds.{decode_chunked-IsBounded}
use ferro_http.Http.Request.Fields.Laws.{FramedBy, body_framing-FramedBy}
use ferro_http.Http.Request.Parse.Inside.{parse_head-HeadParts}
use ferro_http.Http.Request.Parse.Stable.{parse_with-Parses}

parse_digits-le :
    (most acc : ℕ) (s : Bytes) {v : ℕ} → acc ≤ most → parse_digits most acc s ≡ some v → v ≤ most
unfolding parse_digits
parse_digits-le most acc [] le h = ground arith
parse_digits-le most acc (c ∷ s) {v} le h =
    ground (arith, parse_digits-le most (acc * 10 + (c - b'0')) s {v = v})

pub parse_uint-le : (most : ℕ) (s : Bytes) {v : ℕ} → parse_uint most s ≡ some v → v ≤ most
unfolding parse_uint
parse_uint-le most [] h = cc
parse_uint-le most (c ∷ []) h = parse_digits-le most 0 (c ∷ []) (omega arith) h
parse_uint-le most (c ∷ d ∷ s) h =
    parse_digits-le most 0 (if c == b'+' then d ∷ s else c ∷ d ∷ s) (omega arith) h

FramedBy-le : (tes cls : List Header) {n : ℕ} → FramedBy tes cls (fixed n) → n ≤ u64_max
FramedBy-le [] [] f = ground arith
FramedBy-le [] (cl ∷ []) f = ground (arith, parse_uint-le u64_max (trim cl.value) f.3)
FramedBy-le [] (_ ∷ _ ∷ _) f = absurd f
FramedBy-le (te ∷ []) [] f = ground (arith, f.0)
FramedBy-le (_ ∷ _ ∷ _) [] f = absurd f
FramedBy-le (_ ∷ _) (_ ∷ _) f = absurd f

done-injective : {a b : Request} {n m : ℕ} → ok (done a n) ≡ ok (done b m) → (a ≡ b) × (n ≡ m)
done-injective e = (cc, cc)

-- A body of declared length stands right behind the head, and is as long as declared.
parse_body_fixed :
    (buf : Bytes) (max_body head_end : ℕ) (h : Head) (len : ℕ) {r : Request} {n : ℕ}
    → head_end ≤ u64_max
    → len ≤ u64_max
    → parse_body buf max_body head_end h (fixed len) ≡ ok (done r n)
    → (len ≤ max_body)
      × (n ≡ head_end + len)
      × (n ≤ length buf)
      × (r ≡ finish h (take len (drop head_end buf)))
unfolding parse_body wrapping_add
parse_body_fixed buf max_body head_end h len small le e =
    let total : ℕ = wrapping_add head_end len in
    let (u, g, e1) = >>=-eq-ok (guard (leb len max_body) body_too_large) _ e in
    let arrived : ltb (length buf) total ≡ false = ground arith in
    let (body, cut, e2) = >>=-eq-ok (slice buf head_end total) _ (rw arrived at e1) in
    let ordered : head_end ≤ total = ground (arith, cut) in
    let inside : total ≤ length buf = ground (arith, cut) in
    let plain : total ≡ head_end + len = omega (arith, ordered) in
    let width : total - head_end ≡ len = omega (arith, plain) in
    let body_is : body ≡ take (total - head_end) (drop head_end buf) = ground (arith, cut) in
    let (same_r, same_n) = done-injective e2 in
    (
      leb→le _ _ (guard-eq-ok (leb len max_body) body_too_large g),
      sym same_n ∙ plain,
      omega (arith, same_n, inside),
      sym same_r ∙ ap (finish h) (body_is ∙ ap (λ k. take k (drop head_end buf)) width),
    )

-- A request takes no more bytes than the buffer has and four of them at least, and its body is within
-- the limit.
pub record IsBounded (buf : Bytes) (max_body : ℕ) (r : Request) (n : ℕ) : Type 0 where
  pub in_buffer : n ≤ length buf
  pub head_in : 4 ≤ n
  pub small : length r.body ≤ max_body

parse_body-IsBounded :
    (buf : Bytes) (max_body head_end : ℕ) (h : Head) (f : Framing) {r : Request} {n : ℕ}
    → 4 ≤ head_end
    → head_end ≤ length buf
    → head_end ≤ u64_max
    → ((len : ℕ) → f ≡ fixed len → len ≤ u64_max)
    → parse_body buf max_body head_end h f ≡ ok (done r n)
    → IsBounded buf max_body r n
unfolding parse_body
parse_body-IsBounded buf max_body head_end h (fixed len) four inside small le e =
    let (fits, n_is, n_in, r_is) =
      parse_body_fixed buf max_body head_end h len small (le len refl) e in
    record {
      in_buffer = n_in;
      head_in = omega arith;
      small = rw r_is (omega (arith, length-take len (drop head_end buf)));
    }
parse_body-IsBounded buf max_body head_end h chunked {r} {n} four inside small le e =
    let (outcome, decoded, finished) =
      >>=-eq-ok (decode_chunked (drop head_end buf) max_body) _ e in
    after outcome decoded finished
  where
    after :
        (outcome : ChunkOutcome)
        → decode_chunked (drop head_end buf) max_body ≡ ok outcome
        → ok (after_chunks h head_end outcome) ≡ ok (done r n)
        → IsBounded buf max_body r n
    after partial decoded finished = cc
    after (complete b m) decoded finished =
        let bounded = decode_chunked-IsBounded (drop head_end buf) max_body decoded in
        let (same_r, same_n) = done-injective finished in
        record {
          in_buffer = omega (arith, same_n, bounded.in_buffer, length-drop head_end buf);
          head_in = omega (arith, same_n);
          small = rw (← same_r) bounded.fits;
        }

-- A request that is parsed lies in the buffer, takes four bytes at least, and has a body within the
-- limit.
pub parse_with-IsBounded :
    (buf : Bytes) (max_body : ℕ) (r : Request) (n : ℕ)
    → parse_with buf max_body ≡ ok (done r n)
    → IsBounded buf max_body r n
parse_with-IsBounded buf max_body r n e =
    let p = parse_with-Parses buf max_body e in
    let parts = parse_head-HeadParts buf p.end p.head_ok in
    let le = find_subslice-le buf crlf_crlf p.found in
    let framed = body_framing-FramedBy p.head.headers parts.framing in
    parse_body-IsBounded buf max_body (p.end + 4) p.head p.head.framing (omega arith)
      (omega (arith, le)) (omega (arith, parts.small))
      (λ len f.
        FramedBy-le (filter (header_is (codes "transfer-encoding")) p.head.headers)
          (filter (header_is (codes "content-length")) p.head.headers) (rw f at framed))
      p.body_ok

FramedBy-content_length :
    (tes : List Header) (cl : Header) {f : Framing}
    → FramedBy tes (cl ∷ []) f
    → (n : ℕ) × (f ≡ fixed n) × (parse_uint u64_max (trim cl.value) ≡ some n)
FramedBy-content_length [] cl (n, f_is, _, said) = (n, f_is, said)
FramedBy-content_length (te ∷ []) cl f = absurd f
FramedBy-content_length (_ ∷ _ ∷ _) cl f = absurd f

finish_self : (h : Head) (body : Bytes) {r : Request} → finish h body ≡ r → r ≡ finish h r.body
finish_self h body e = rw (← e) refl

-- The request is the head with some body.
pub parse_body-finish :
    (buf : Bytes) (max_body head_end : ℕ) (h : Head) (f : Framing) {r : Request} {n : ℕ}
    → parse_body buf max_body head_end h f ≡ ok (done r n)
    → r ≡ finish h r.body
unfolding parse_body
parse_body-finish buf max_body head_end h (fixed len) {r} {n} e =
    let (u, g, e1) = >>=-eq-ok (guard (leb len max_body) body_too_large) _ e in
    let arrived : ltb (length buf) (wrapping_add head_end len) ≡ false = ground arith in
    let (body, cut, e2) =
      >>=-eq-ok (slice buf head_end (wrapping_add head_end len)) _ (rw arrived at e1) in
    finish_self h body (done-injective e2).0
parse_body-finish buf max_body head_end h chunked {r} {n} e =
    let (outcome, decoded, finished) =
      >>=-eq-ok (decode_chunked (drop head_end buf) max_body) _ e in
    after outcome finished
  where
    after :
        (outcome : ChunkOutcome)
        → ok (after_chunks h head_end outcome) ≡ ok (done r n)
        → r ≡ finish h r.body
    after partial finished = cc
    after (complete b m) finished = finish_self h b (done-injective finished).0

-- If a parsed request has exactly one Content-Length field, the body is exactly as long as that field says, and
-- is the bytes right behind the head's blank line; the request ends with it.
pub parse_with_content_length :
    (buf : Bytes) (max_body : ℕ) (r : Request) (n : ℕ) (cl : Header)
    → parse_with buf max_body ≡ ok (done r n)
    → filter (header_is (codes "content-length")) r.headers ≡ cl ∷ []
    → (len : ℕ) × (end : ℕ) × (parse_uint u64_max (trim cl.value) ≡ some len)
      × (find_subslice buf crlf_crlf ≡ some end)
      × (r.body ≡ take len (drop (end + 4) buf))
      × (length r.body ≡ len)
      × (n ≡ end + 4 + len)
parse_with_content_length buf max_body r n cl e one =
    let p = parse_with-Parses buf max_body e in
    let parts = parse_head-HeadParts buf p.end p.head_ok in
    let le = find_subslice-le buf crlf_crlf p.found in
    let same : r.headers ≡ p.head.headers =
      ap (λ (q : Request). q.headers)
        (parse_body-finish buf max_body (p.end + 4) p.head p.head.framing p.body_ok) in
    let framed = body_framing-FramedBy p.head.headers parts.framing in
    let (len, framing_is, said) =
      FramedBy-content_length (filter (header_is (codes "transfer-encoding")) r.headers) cl
        (rw (← same, one) at framed) in
    let (fits, n_is, n_in, r_is) =
      parse_body_fixed buf max_body (p.end + 4) p.head len (omega (arith, parts.small))
        (parse_uint-le u64_max (trim cl.value) said) (rw framing_is at p.body_ok) in
    let body_is : r.body ≡ take len (drop (p.end + 4) buf) = ap (λ (q : Request). q.body) r_is in
    (
      len,
      p.end,
      said,
      p.found,
      body_is,
      omega (
        arith,
        ap length body_is,
        length-take len (drop (p.end + 4) buf),
        length-drop (p.end + 4) buf,
        n_is,
        n_in,
      ),
      n_is,
    )
