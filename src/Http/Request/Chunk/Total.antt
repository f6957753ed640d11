-- ===== src/Http/Request/Chunk/Total.antt =====
-- The fuel of the chunk decoder is enough.
use ferro_http.Http.Request.{Result, ok, err, panic, out_of_fuel, ◌>>=◌, guard, ok_or, ParseError}
use ferro_http.Base.{
  ℕ, zero, suc, ◌+◌, ◌-◌, ◌*◌, ◌≤◌, ◌<◌, ◌≡◌, refl, ◌≢◌, inl, inr, Bool, true, false, Option, none,
  some, [], ◌∷◌, ◌++◌, arith, Option-cases, length, take, drop, Bytes, wrapping_add,
}
use ferro_http.Http.Request.Scan.{find_subslice, crlf}
use ferro_http.Http.Request.Scan.Search.{find_crlf-le}
use ferro_http.Http.Request.Chunk.{
  ChunkOutcome, unterminated, skip_trailers, size_token, parse_hex, parse_hex_from, hex_digit,
  take_chunk, decode_chunks, decode_chunked,
}

unterminated-ne-out_of_fuel : (n : ℕ) → unterminated n ≢ out_of_fuel
unterminated-ne-out_of_fuel n = ground arith

pub >>=-ne-out_of_fuel :
    {A B : Type 0} (m : Result A) (f : A → Result B)
    → m ≢ out_of_fuel
    → ((a : A) → m ≡ ok a → f a ≢ out_of_fuel)
    → (m >>= f) ≢ out_of_fuel
>>=-ne-out_of_fuel (ok a) f ne k = k a refl
>>=-ne-out_of_fuel (err e) f ne k = λ h. cc
>>=-ne-out_of_fuel panic f ne k = λ h. cc
>>=-ne-out_of_fuel out_of_fuel f ne k = absurd (ne refl)

pub ok_or-ne-out_of_fuel : {A : Type 0} (o : Option A) (e : ParseError) → ok_or o e ≢ out_of_fuel
ok_or-ne-out_of_fuel none e = λ h. cc
ok_or-ne-out_of_fuel (some a) e = λ h. cc

pub guard-ne-out_of_fuel : (b : Bool) (e : ParseError) → guard b e ≢ out_of_fuel
guard-ne-out_of_fuel true e = λ h. cc
guard-ne-out_of_fuel false e = λ h. cc

parse_hex_from-ne-out_of_fuel :
    (value : ℕ) (bytes : Bytes) → parse_hex_from value bytes ≢ out_of_fuel
unfolding parse_hex_from
parse_hex_from-ne-out_of_fuel value [] = λ h. cc
parse_hex_from-ne-out_of_fuel value (b ∷ bytes) = elim (Option-cases (hex_digit b)) [
  | inl other ↦ ground (arith, other)
  | inr (d, digit) ↦ ground (arith, digit, parse_hex_from-ne-out_of_fuel (value * 16 + d) bytes)
]

parse_hex-ne-out_of_fuel : (bytes : Bytes) → parse_hex bytes ≢ out_of_fuel
unfolding parse_hex
parse_hex-ne-out_of_fuel bytes = ground (arith, parse_hex_from-ne-out_of_fuel 0 bytes)

module _ (buf : Bytes) (max_body : ℕ) where
  skip_trailers-ne-out_of_fuel :
      (f tpos : ℕ) (body : Bytes)
      → tpos ≤ length buf
      → length buf < tpos + f
      → skip_trailers f buf tpos body ≢ out_of_fuel
  unfolding skip_trailers
  skip_trailers-ne-out_of_fuel zero tpos body inside enough = absurd (omega arith)
  skip_trailers-ne-out_of_fuel (suc f) tpos body inside enough =
      elim (Option-cases (find_subslice (drop tpos buf) crlf)) [
        | inl missed ↦ rw (missed, skip_trailers) (unterminated-ne-out_of_fuel _)
        | inr (zero, found) ↦ rw (found, skip_trailers) (λ h. cc)
        | inr (suc i, found) ↦
            rw (found, skip_trailers)
              (skip_trailers-ne-out_of_fuel f (tpos + suc i + 2) body (find_crlf-le buf tpos found)
                (omega arith))
      ]

  take_chunk-ne-out_of_fuel :
      (body : Bytes) (data_start size : ℕ) (next : ℕ → Bytes → Result ChunkOutcome)
      → ((p : ℕ) (b : Bytes) → data_start ≤ p → p ≤ length buf → next p b ≢ out_of_fuel)
      → take_chunk buf max_body body data_start size next ≢ out_of_fuel
  unfolding take_chunk
  take_chunk-ne-out_of_fuel body data_start size next k =
      let de : ℕ = wrapping_add data_start size in
      ground (arith, k (wrapping_add de 2) (body ++ take (de - data_start) (drop data_start buf)))

  decode_chunks-ne-out_of_fuel :
      (f pos : ℕ) (body : Bytes)
      → pos ≤ length buf
      → length buf < pos + f
      → decode_chunks f buf max_body pos body ≢ out_of_fuel
  unfolding decode_chunks
  decode_chunks-ne-out_of_fuel zero pos body inside enough = absurd (omega arith)
  decode_chunks-ne-out_of_fuel (suc f) pos body inside enough =
      elim (Option-cases (find_subslice (drop pos buf) crlf)) [
        | inl missed ↦ rw (missed, decode_chunks) (unterminated-ne-out_of_fuel _)
        | inr (i, found) ↦
            rw (found, decode_chunks)
              (>>=-ne-out_of_fuel (parse_hex (size_token (take i (drop pos buf)))) _
                (parse_hex-ne-out_of_fuel _)
                λ size parsed.
                  sized (pos + i + 2) size (find_crlf-le buf pos found)
                    (λ p b le in_buf. decode_chunks-ne-out_of_fuel f p b in_buf (omega arith)))
      ]
    where
      sized :
          (data_start size : ℕ)
          → data_start ≤ length buf
          → ((p : ℕ) (b : Bytes)
              → data_start ≤ p
              → p ≤ length buf
              → decode_chunks f buf max_body p b ≢ out_of_fuel)
          → elim size [
            | zero ↦ skip_trailers (suc (length buf)) buf data_start body
            | suc k ↦ take_chunk buf max_body body data_start (suc k) (decode_chunks f buf max_body)
          ]
            ≢ out_of_fuel
      sized data_start zero start ih =
          skip_trailers-ne-out_of_fuel (suc (length buf)) data_start body start (omega arith)
      sized data_start (suc k) start ih =
          take_chunk-ne-out_of_fuel body data_start (suc k) (decode_chunks f buf max_body) ih

-- The decoder ends on every input: each chunk and each trailer line takes bytes of the buffer.
pub decode_chunked-ne-out_of_fuel :
    (buf : Bytes) (max_body : ℕ) → decode_chunked buf max_body ≢ out_of_fuel
unfolding decode_chunked
decode_chunked-ne-out_of_fuel buf max_body =
    decode_chunks-ne-out_of_fuel buf max_body (suc (length buf)) 0 [] (omega arith) (omega arith)
