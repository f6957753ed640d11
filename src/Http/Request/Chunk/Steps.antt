-- ===== src/Http/Request/Chunk/Steps.antt =====
-- One round of the chunk decoder: when it takes a chunk, and what it then knows of the buffer.
use ferro_http.Http.Request.{
  Result, ok, guard, malformed_chunk, body_too_large, >>=-eq-ok, guard-eq-ok,
}
use ferro_http.Base.{
  ℕ, ◌+◌, ◌-◌, ◌≤◌, ◌≡◌, refl, ap, ◌∙◌, true, false, ◌++◌, arith, ltb, leb, leb→le, length, take,
  drop, length-append, length-take, length-drop, take-append, drop-append, Bytes, bytes_eq,
  bytes_eq_iff, wrapping_add,
}
use ferro_http.Http.Request.Scan.{slice, crlf}
use ferro_http.Http.Request.Chunk.{ChunkOutcome, complete, take_chunk}

-- The decoder takes `chunk` from `data_start` on and goes on at `pos`.
pub record Takes (buf : Bytes) (max_body : ℕ) (body : Bytes) (data_start size : ℕ) (chunk : Bytes)
    (pos : ℕ) : Type 0 where
  pub data_end : ℕ
  pub end_is : wrapping_add data_start size ≡ data_end
  pub pos_is : wrapping_add data_end 2 ≡ pos
  pub in_range : pos ≤ length buf
  pub ordered : data_end ≤ pos
  pub terminated : take (pos - data_end) (drop data_end buf) ≡ crlf
  pub forward : data_start ≤ data_end
  pub chunk_is : take (data_end - data_start) (drop data_start buf) ≡ chunk
  pub fits : length (body ++ chunk) ≤ max_body

slice-eq-ok :
    (buf : Bytes) (from to : ℕ) {s : Bytes}
    → slice buf from to ≡ ok s
    → (from ≤ to) × (to ≤ length buf) × (take (to - from) (drop from buf) ≡ s)
slice-eq-ok buf from to h = ground arith

module _ {buf : Bytes} {max_body : ℕ} {body : Bytes} {data_start size : ℕ} where
  -- A round that leads to a complete body has taken a chunk.
  pub take_chunk-Takes :
      (next : ℕ → Bytes → Result ChunkOutcome) {b : Bytes} {n : ℕ}
      → take_chunk buf max_body body data_start size next ≡ ok (complete b n)
      → (chunk : Bytes) × (pos : ℕ) × Takes buf max_body body data_start size chunk pos
        × (next pos (body ++ chunk) ≡ ok (complete b n))
  unfolding take_chunk
  take_chunk-Takes next h =
      let de : ℕ = wrapping_add data_start size in
      let short : ltb (length buf) (wrapping_add de 2) ≡ false = ground arith in
      let h' = rw short at h in
      let (terminator, st, h1) = >>=-eq-ok (slice buf de (wrapping_add de 2)) _ h' in
      let (u, g1, h2) = >>=-eq-ok (guard (bytes_eq terminator crlf) malformed_chunk) _ h1 in
      let (chunk, sc, h3) = >>=-eq-ok (slice buf data_start de) _ h2 in
      let (u2, g2, h4) =
        >>=-eq-ok (guard (leb (length (body ++ chunk)) max_body) body_too_large) _ h3 in
      let (o1, o2, o3) = slice-eq-ok buf de (wrapping_add de 2) st in
      let (p1, p2, p3) = slice-eq-ok buf data_start de sc in
      (
        chunk,
        wrapping_add de 2,
        record {
          data_end = de;
          end_is = refl;
          pos_is = refl;
          in_range = o2;
          ordered = o1;
          terminated = o3 ∙ (bytes_eq_iff _ _).0 (guard-eq-ok _ _ g1);
          forward = p1;
          chunk_is = p3;
          fits = leb→le _ _ (guard-eq-ok _ _ g2);
        },
        h4,
      )

  -- With those facts the round goes on.
  pub Takes-take_chunk :
      (next : ℕ → Bytes → Result ChunkOutcome) {chunk : Bytes} {pos : ℕ}
      → Takes buf max_body body data_start size chunk pos
      → take_chunk buf max_body body data_start size next ≡ next pos (body ++ chunk)
  unfolding take_chunk
  Takes-take_chunk next {chunk} {pos} t =
      let same : bytes_eq (take (pos - t.data_end) (drop t.data_end buf)) crlf ≡ true =
        (bytes_eq_iff _ _).1 t.terminated in
      rw (t.end_is, t.pos_is) (ground (arith, same))

-- The CRLF behind a chunk is two bytes.
pub Takes-pos :
    {buf body chunk : Bytes} {max_body data_start size pos : ℕ}
    (t : Takes buf max_body body data_start size chunk pos)
    → pos ≡ t.data_end + 2
Takes-pos {buf} {pos = pos} t = omega (
  arith,
  length-take (pos - t.data_end) (drop t.data_end buf),
  length-drop t.data_end buf,
  ap length t.terminated,
  t.in_range,
  t.ordered,
)

-- Bytes behind the buffer change no round.
pub Takes-append :
    {buf body chunk : Bytes} {max_body data_start size pos : ℕ} (more : Bytes)
    → Takes buf max_body body data_start size chunk pos
    → Takes (buf ++ more) max_body body data_start size chunk pos
Takes-append {buf} {chunk = chunk} {data_start = data_start} {pos = pos} more t = record {
  data_end = t.data_end;
  end_is = t.end_is;
  pos_is = t.pos_is;
  in_range = omega (arith, length-append buf more, t.in_range);
  ordered = t.ordered;
  terminated = inner t.data_end pos t.ordered t.in_range ∙ t.terminated;
  forward = t.forward;
  chunk_is =
      inner data_start t.data_end t.forward (omega (arith, t.ordered, t.in_range)) ∙ t.chunk_is;
  fits = t.fits;
}
  where
    inner :
        (a b : ℕ)
        → a ≤ b
        → b ≤ length buf
        → take (b - a) (drop a (buf ++ more)) ≡ take (b - a) (drop a buf)
    inner a b h k =
        rw (drop-append a buf more (omega arith))
          (take-append (b - a) (drop a buf) more (omega (arith, length-drop a buf)))
