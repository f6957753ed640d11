-- ===== src/Http/Request/Parse/Stable.antt =====
-- A request that is complete in the buffer is parsed alike when more bytes follow it.
use ferro_http.Http.Request.{Request, ok, ◌>>=◌, guard, head_too_large, >>=-eq-ok}
use ferro_http.Base.{
  ℕ, ◌+◌, ◌-◌, ◌≤◌, ◌≡◌, ◌∙◌, inl, inr, some, ◌++◌, arith, leb, Option-cases, length, drop,
  length-append, length-drop, take-append, drop-append, Bytes, wrapping_add,
}
use ferro_http.Http.Request.Scan.{find_subslice, crlf_crlf}
use ferro_http.Http.Request.Scan.Search.{find_subslice-le, find_subslice-append}
use ferro_http.Http.Request.Fields.{Framing, fixed, chunked}
use ferro_http.Http.Request.Chunk.{ChunkOutcome, partial, complete, decode_chunked}
use ferro_http.Http.Request.Parse.{
  done, Head, after_chunks, parse_head, parse_body, parse_with, max_head_bytes,
}
use ferro_http.Http.Request.Chunk.Stable.{decode_chunked-append}

-- The steps of a parse that gave a request.
pub record Parses (buf : Bytes) (max_body : ℕ) (r : Request) (n : ℕ) : Type 0 where
  pub end : ℕ
  pub head : Head
  pub found : find_subslice buf crlf_crlf ≡ some end
  pub head_ok : parse_head buf end ≡ ok head
  pub body_ok : parse_body buf max_body (end + 4) head head.framing ≡ ok (done r n)

pub parse_with-Parses :
    (buf : Bytes) (max_body : ℕ) {r : Request} {n : ℕ}
    → parse_with buf max_body ≡ ok (done r n)
    → Parses buf max_body r n
unfolding parse_with
parse_with-Parses buf max_body h = elim (Option-cases (find_subslice buf crlf_crlf)) [
  | inl missed ↦
      let (u, g, e) =
        >>=-eq-ok (guard (leb (length buf) max_head_bytes) head_too_large) _
          (rw (missed, parse_with) at h) in
      cc
  | inr (end, found) ↦
      let (head, head_ok, body_ok) =
        >>=-eq-ok (parse_head buf end) _ (rw (found, parse_with) at h) in
      record { end = end; head = head; found = found; head_ok = head_ok; body_ok = body_ok }
]

pub Parses-parse_with :
    {buf : Bytes} {max_body : ℕ} {r : Request} {n : ℕ}
    → Parses buf max_body r n
    → parse_with buf max_body ≡ ok (done r n)
unfolding parse_with
Parses-parse_with p = rw (p.found, parse_with) (rw p.head_ok p.body_ok)

parse_head-append :
    (buf more : Bytes) (end : ℕ)
    → end + 4 ≤ length buf
    → parse_head (buf ++ more) end ≡ parse_head buf end
unfolding parse_head
parse_head-append buf more end le =
    rw (take-append (end + 4) buf more le, take-append end buf more (omega arith))

parse_body-append :
    (buf more : Bytes) (max_body head_end : ℕ) (h : Head) (f : Framing) {r : Request} {n : ℕ}
    → head_end ≤ length buf
    → parse_body buf max_body head_end h f ≡ ok (done r n)
    → parse_body (buf ++ more) max_body head_end h f ≡ ok (done r n)
unfolding parse_body
parse_body-append buf more max_body head_end h (fixed len) le e =
    let total : ℕ = wrapping_add head_end len in
    ground (
      arith,
      length-append buf more,
      drop-append head_end buf more le,
      take-append (total - head_end) (drop head_end buf) more,
      length-drop head_end buf,
    )
parse_body-append buf more max_body head_end h chunked {r} {n} le e =
    let (outcome, decoded, finished) =
      >>=-eq-ok (decode_chunked (drop head_end buf) max_body) _ e in
    rw (drop-append head_end buf more le) (after outcome decoded finished)
  where
    after :
        (outcome : ChunkOutcome)
        → decode_chunked (drop head_end buf) max_body ≡ ok outcome
        → ok (after_chunks h head_end outcome) ≡ ok (done r n)
        → (decode_chunked (drop head_end buf ++ more) max_body >>= λ o.
            ok (after_chunks h head_end o))
          ≡ ok (done r n)
    after partial decoded finished = cc
    after (complete b m) decoded finished =
        rw (decode_chunked-append (drop head_end buf) more max_body decoded) finished

-- If a request is complete in the buffer, then with any further bytes behind it the parser returns
-- the same request and takes the same number of bytes.
pub parse_with-append :
    (buf more : Bytes) (max_body : ℕ) (r : Request) (n : ℕ)
    → parse_with buf max_body ≡ ok (done r n)
    → parse_with (buf ++ more) max_body ≡ ok (done r n)
parse_with-append buf more max_body r n h =
    let p = parse_with-Parses buf max_body h in
    let le = find_subslice-le buf crlf_crlf p.found in
    Parses-parse_with (record {
      end = p.end;
      head = p.head;
      found = find_subslice-append buf more crlf_crlf p.found;
      head_ok = parse_head-append buf more p.end (omega (arith, le)) ∙ p.head_ok;
      body_ok =
          parse_body-append buf more max_body (p.end + 4) p.head p.head.framing (omega (arith, le))
            p.body_ok;
    })
