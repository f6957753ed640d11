-- ===== src/Http/Request/Chunk/Stable.antt =====
-- A chunked body that is complete stays the same when more bytes follow it in the buffer.
use ferro_http.Http.Request.{ok, >>=-eq-ok}
use ferro_http.Base.{
  ℕ, zero, suc, ◌+◌, ◌≤◌, ◌≡◌, ◌∙◌, ◌≢◌, inl, inr, some, [], ◌++◌, arith, Option-cases, length,
  take, drop, length-append, length-drop, take-append, drop-append, Bytes,
}
use ferro_http.Http.Request.Scan.{find_subslice, crlf}
use ferro_http.Http.Request.Scan.Search.{find_crlf-le, find_crlf-append}
use ferro_http.Http.Request.Chunk.{
  complete, unterminated, skip_trailers, size_token, parse_hex, take_chunk, decode_chunks,
  decode_chunked,
}
use ferro_http.Http.Request.Chunk.Steps.{take_chunk-Takes, Takes-take_chunk, Takes-append}

pub unterminated-ne-complete : (n : ℕ) {b : Bytes} {m : ℕ} → unterminated n ≢ ok (complete b m)
unterminated-ne-complete n = ground arith

module _ (buf more : Bytes) where
  skip_trailers-append :
      (f f' tpos : ℕ) (body : Bytes) {b : Bytes} {n : ℕ}
      → f ≤ f'
      → skip_trailers f buf tpos body ≡ ok (complete b n)
      → skip_trailers f' (buf ++ more) tpos body ≡ ok (complete b n)
  unfolding skip_trailers
  skip_trailers-append zero f' tpos body le h = cc
  skip_trailers-append (suc f) zero tpos body le h = absurd (omega arith)
  skip_trailers-append (suc f) (suc f') tpos body le h =
      elim (Option-cases (find_subslice (drop tpos buf) crlf)) [
        | inl missed ↦ absurd (unterminated-ne-complete _ (rw (missed, skip_trailers) at h))
        | inr (zero, found) ↦
            rw (find_crlf-append buf more tpos found, skip_trailers)
              (rw (found, skip_trailers) at h)
        | inr (suc i, found) ↦
            rw (find_crlf-append buf more tpos found, skip_trailers)
              (skip_trailers-append f f' (tpos + suc i + 2) body (omega arith)
                (rw (found, skip_trailers) at h))
      ]

  -- The bytes of a line that lies in the buffer.
  take_line-append :
      (pos : ℕ) {i : ℕ}
      → find_subslice (drop pos buf) crlf ≡ some i
      → take i (drop pos (buf ++ more)) ≡ take i (drop pos buf)
  take_line-append pos {i} h =
      let le = find_crlf-le buf pos h in
      rw (drop-append pos buf more (omega (arith, le)))
        (take-append i (drop pos buf) more (omega (arith, le, length-drop pos buf)))

  decode_chunks-append :
      (f f' max_body pos : ℕ) (body : Bytes) {b : Bytes} {n : ℕ}
      → f ≤ f'
      → decode_chunks f buf max_body pos body ≡ ok (complete b n)
      → decode_chunks f' (buf ++ more) max_body pos body ≡ ok (complete b n)
  unfolding decode_chunks
  decode_chunks-append zero f' max_body pos body le h = cc
  decode_chunks-append (suc f) zero max_body pos body le h = absurd (omega arith)
  decode_chunks-append (suc f) (suc f') max_body pos body {b} {n} le h =
      elim (Option-cases (find_subslice (drop pos buf) crlf)) [
        | inl missed ↦ absurd (unterminated-ne-complete _ (rw (missed, decode_chunks) at h))
        | inr (i, found) ↦
            let (size, parsed, rest) =
              >>=-eq-ok (parse_hex (size_token (take i (drop pos buf)))) _
                (rw (found, decode_chunks) at h) in
            rw (find_crlf-append buf more pos found, decode_chunks)
              (rw (take_line-append pos found, parsed)
                (sized (pos + i + 2) size
                  (λ p b' e. decode_chunks-append f f' max_body p b' (omega arith) e) rest))
      ]
    where
      sized :
          (data_start size : ℕ)
          → ((p : ℕ) (b' : Bytes)
              → decode_chunks f buf max_body p b' ≡ ok (complete b n)
              → decode_chunks f' (buf ++ more) max_body p b' ≡ ok (complete b n))
          → elim size [
            | zero ↦ skip_trailers (suc (length buf)) buf data_start body
            | suc k ↦ take_chunk buf max_body body data_start (suc k) (decode_chunks f buf max_body)
          ]
            ≡ ok (complete b n)
          → elim size [
            | zero ↦ skip_trailers (suc (length (buf ++ more))) (buf ++ more) data_start body
            | suc k ↦
                take_chunk
                  (buf ++ more)
                  max_body
                  body
                  data_start
                  (suc k)
                  (decode_chunks f' (buf ++ more) max_body)
          ]
            ≡ ok (complete b n)
      sized data_start zero ih e =
          skip_trailers-append (suc (length buf)) (suc (length (buf ++ more))) data_start body
            (omega (arith, length-append buf more)) e
      sized data_start (suc k) ih e =
          let (chunk, p, t, later) = take_chunk-Takes (decode_chunks f buf max_body) e in
          Takes-take_chunk (decode_chunks f' (buf ++ more) max_body) (Takes-append more t)
          ∙ ih p (body ++ chunk) later

-- Bytes that follow a complete chunked body change neither the body nor its end.
pub decode_chunked-append :
    (buf more : Bytes) (max_body : ℕ) {b : Bytes} {n : ℕ}
    → decode_chunked buf max_body ≡ ok (complete b n)
    → decode_chunked (buf ++ more) max_body ≡ ok (complete b n)
unfolding decode_chunked
decode_chunked-append buf more max_body h =
    decode_chunks-append buf more (suc (length buf)) (suc (length (buf ++ more))) max_body 0 []
      (omega (arith, length-append buf more)) h
