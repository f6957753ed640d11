-- ===== src/Http/Request/Chunk/Bounds.antt =====
-- How far a complete chunked body reaches, and how large it is.
use ferro_http.Http.Request.{ok, >>=-eq-ok}
use ferro_http.Base.{
  ℕ, zero, suc, ◌+◌, ◌≤◌, ◌<◌, ◌≡◌, inl, inr, [], ◌++◌, arith, Option-cases, length, take, drop,
  Bytes,
}
use ferro_http.Http.Request.Scan.{find_subslice, crlf}
use ferro_http.Http.Request.Scan.Search.{find_crlf-le}
use ferro_http.Http.Request.Chunk.{
  complete, skip_trailers, size_token, parse_hex, take_chunk, decode_chunks, decode_chunked,
}
use ferro_http.Http.Request.Chunk.Steps.{take_chunk-Takes}
use ferro_http.Http.Request.Chunk.Stable.{unterminated-ne-complete}

-- The end of a body that was read from `pos` on, and its size.
pub record IsBounded (buf : Bytes) (max_body pos : ℕ) (b : Bytes) (n : ℕ) : Type 0 where
  pub after : pos < n
  pub in_buffer : n ≤ length buf
  pub fits : length b ≤ max_body

module _ (buf : Bytes) (max_body : ℕ) where
  skip_trailers-IsBounded :
      (f tpos : ℕ) (body : Bytes) {b : Bytes} {n : ℕ}
      → length body ≤ max_body
      → skip_trailers f buf tpos body ≡ ok (complete b n)
      → IsBounded buf max_body tpos b n
  unfolding skip_trailers
  skip_trailers-IsBounded zero tpos body small h = cc
  skip_trailers-IsBounded (suc f) tpos body small h =
      elim (Option-cases (find_subslice (drop tpos buf) crlf)) [
        | inl missed ↦ absurd (unterminated-ne-complete _ (rw (missed, skip_trailers) at h))
        | inr (zero, found) ↦
            let e = rw (found, skip_trailers) at h in
            let room = find_crlf-le buf tpos found in ground (arith, e, room)
        | inr (suc i, found) ↦
            let later =
              skip_trailers-IsBounded f (tpos + suc i + 2) body small
                (rw (found, skip_trailers) at h) in
            record {
              after = omega (arith, later.after);
              in_buffer = later.in_buffer;
              fits = later.fits;
            }
      ]

  decode_chunks-IsBounded :
      (f pos : ℕ) (body : Bytes) {b : Bytes} {n : ℕ}
      → length body ≤ max_body
      → decode_chunks f buf max_body pos body ≡ ok (complete b n)
      → IsBounded buf max_body pos b n
  unfolding decode_chunks
  decode_chunks-IsBounded zero pos body small h = cc
  decode_chunks-IsBounded (suc f) pos body {b} {n} small h =
      elim (Option-cases (find_subslice (drop pos buf) crlf)) [
        | inl missed ↦ absurd (unterminated-ne-complete _ (rw (missed, decode_chunks) at h))
        | inr (i, found) ↦
            let (size, parsed, rest) =
              >>=-eq-ok (parse_hex (size_token (take i (drop pos buf)))) _
                (rw (found, decode_chunks) at h) in
            let later =
              sized (pos + i + 2) size (λ p b' s e. decode_chunks-IsBounded f p b' s e) rest in
            record {
              after = omega (arith, later.after);
              in_buffer = later.in_buffer;
              fits = later.fits;
            }
      ]
    where
      sized :
          (data_start size : ℕ)
          → ((p : ℕ) (b' : Bytes)
              → length b' ≤ max_body
              → decode_chunks f buf max_body p b' ≡ ok (complete b n)
              → IsBounded buf max_body p b n)
          → elim size [
            | zero ↦ skip_trailers (suc (length buf)) buf data_start body
            | suc k ↦ take_chunk buf max_body body data_start (suc k) (decode_chunks f buf max_body)
          ]
            ≡ ok (complete b n)
          → IsBounded buf max_body data_start b n
      sized data_start zero ih e =
          skip_trailers-IsBounded (suc (length buf)) data_start body small e
      sized data_start (suc k) ih e =
          let (chunk, p, t, later) = take_chunk-Takes (decode_chunks f buf max_body) e in
          let bounded = ih p (body ++ chunk) t.fits later in
          record {
            after = omega (arith, bounded.after, t.forward, t.ordered);
            in_buffer = bounded.in_buffer;
            fits = bounded.fits;
          }

pub decode_chunked-IsBounded :
    (buf : Bytes) (max_body : ℕ) {b : Bytes} {n : ℕ}
    → decode_chunked buf max_body ≡ ok (complete b n)
    → IsBounded buf max_body 0 b n
unfolding decode_chunked
decode_chunked-IsBounded buf max_body h =
    decode_chunks-IsBounded buf max_body (suc (length buf)) 0 [] (omega arith) h
