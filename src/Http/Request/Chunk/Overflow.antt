-- ===== src/Http/Request/Chunk/Overflow.antt =====
-- A chunk size near 2^64: the end of the chunk wraps round in front of its start.
use ferro_http.Http.Request.{Result, ok, panic}
use ferro_http.Base.{
  ℕ, suc, ◌-◌, ◌^◌, ◌≤◌, ◌≡◌, refl, some, [], ◌++◌, arith, length, take, drop, Bytes, codes,
  bytes_eq_iff, starts_with, split_once, wrapping_add,
}
use ferro_http.Http.Request.Scan.{find_subslice, crlf, window_position}
use ferro_http.Http.Request.Scan.Search.{find_subslice-append}
use ferro_http.Http.Request.Chunk.{
  ChunkOutcome, hex_digit, parse_hex_from, parse_hex, size_token, take_chunk, decode_chunks,
  decode_chunked,
}

abbrev pub size_line : Bytes
size_line = codes "fffffffffffffffe\r\n"

size_line-found : find_subslice size_line crlf ≡ some 16
unfolding find_subslice window_position starts_with
size_line-found = refl

size_line-parsed : parse_hex (size_token (codes "fffffffffffffffe")) ≡ ok (2 ^ 64 - 2)
unfolding parse_hex parse_hex_from hex_digit split_once
size_line-parsed = refl

take_chunk_overflow :
    (buf : Bytes) (max_body : ℕ) (body : Bytes) (next : ℕ → Bytes → Result ChunkOutcome)
    → 18 ≤ length buf
    → take 2 (drop 16 buf) ≡ crlf
    → take_chunk buf max_body body 18 (2 ^ 64 - 2) next ≡ panic
unfolding take_chunk wrapping_add
take_chunk_overflow buf max_body body next long own =
    ground (arith, (bytes_eq_iff (take 2 (drop 16 buf)) crlf).1 own)

decode_chunks_overflow :
    (f : ℕ) (buf : Bytes) (max_body : ℕ)
    → find_subslice buf crlf ≡ some 16
    → take 16 buf ≡ codes "fffffffffffffffe"
    → 18 ≤ length buf
    → take 2 (drop 16 buf) ≡ crlf
    → decode_chunks (suc f) buf max_body 0 [] ≡ panic
unfolding decode_chunks
decode_chunks_overflow f buf max_body found line long own =
    rw (found, decode_chunks)
      (rw (line, size_line-parsed)
        (take_chunk_overflow buf max_body [] (decode_chunks f buf max_body) long own))

-- With the size line of 2^64 - 2 in front, whatever follows it and whatever the limit, the decoder finds the
-- size line's own CRLF where it looks for the chunk's, and then cuts a slice that ends before it
-- starts, which panics.
pub decode_chunked_overflow :
    (rest : Bytes) (max_body : ℕ) → decode_chunked (size_line ++ rest) max_body ≡ panic
unfolding decode_chunked
decode_chunked_overflow rest max_body =
    decode_chunks_overflow (length (size_line ++ rest)) (size_line ++ rest) max_body
      (find_subslice-append size_line rest crlf size_line-found) refl (omega arith) refl
