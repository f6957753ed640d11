-- ===== src/Auth/Sha256.antt =====
-- crates/std-server/src/webui/sha256.rs: SHA-256 over `u32` words.
use ferro_http.Base.{
  ℕ, zero, suc, ◌+◌, ◌-◌, ◌*◌, ◌/◌, ◌%◌, ◌^◌, Bool, List, [], ◌∷◌, ◌++◌, ltb, ◌==◌, if◌then◌else◌,
  length, get_or, take, drop, Bytes, u32_max,
}
use Prim.Native.Nat.{bit_and, bit_xor}
use ferro_http.Auth.{constant_time_eq}

abbrev pub wrapping_add_32 : ℕ → ℕ → ℕ
wrapping_add_32 a b = (a + b) % 2 ^ 32

abbrev pub rotate_right : ℕ → ℕ → ℕ
rotate_right x n = x / 2 ^ n + x % 2 ^ n * 2 ^ (32 - n)

-- The eight working words, and the hash between two blocks.
pub record Words : Type 0 where
  pub a : ℕ
  pub b : ℕ
  pub c : ℕ
  pub d : ℕ
  pub e : ℕ
  pub f : ℕ
  pub g : ℕ
  pub h : ℕ

abbrev pub initial : Words
initial = record {
  a = 0x6a09e667;
  b = 0xbb67ae85;
  c = 0x3c6ef372;
  d = 0xa54ff53a;
  e = 0x510e527f;
  f = 0x9b05688c;
  g = 0x1f83d9ab;
  h = 0x5be0cd19;
}

abbrev pub round_constants : List ℕ
round_constants =
    0x428a2f98 ∷ 0x71374491 ∷ 0xb5c0fbcf ∷ 0xe9b5dba5 ∷ 0x3956c25b ∷ 0x59f111f1 ∷ 0x923f82a4
    ∷ 0xab1c5ed5 ∷ 0xd807aa98 ∷ 0x12835b01 ∷ 0x243185be ∷ 0x550c7dc3 ∷ 0x72be5d74 ∷ 0x80deb1fe
    ∷ 0x9bdc06a7 ∷ 0xc19bf174 ∷ 0xe49b69c1 ∷ 0xefbe4786 ∷ 0x0fc19dc6 ∷ 0x240ca1cc ∷ 0x2de92c6f
    ∷ 0x4a7484aa ∷ 0x5cb0a9dc ∷ 0x76f988da ∷ 0x983e5152 ∷ 0xa831c66d ∷ 0xb00327c8 ∷ 0xbf597fc7
    ∷ 0xc6e00bf3 ∷ 0xd5a79147 ∷ 0x06ca6351 ∷ 0x14292967 ∷ 0x27b70a85 ∷ 0x2e1b2138 ∷ 0x4d2c6dfc
    ∷ 0x53380d13 ∷ 0x650a7354 ∷ 0x766a0abb ∷ 0x81c2c92e ∷ 0x92722c85 ∷ 0xa2bfe8a1 ∷ 0xa81a664b
    ∷ 0xc24b8b70 ∷ 0xc76c51a3 ∷ 0xd192e819 ∷ 0xd6990624 ∷ 0xf40e3585 ∷ 0x106aa070 ∷ 0x19a4c116
    ∷ 0x1e376c08 ∷ 0x2748774c ∷ 0x34b0bcb5 ∷ 0x391c0cb3 ∷ 0x4ed8aa4a ∷ 0x5b9cca4f ∷ 0x682e6ff3
    ∷ 0x748f82ee ∷ 0x78a5636f ∷ 0x84c87814 ∷ 0x8cc70208 ∷ 0x90befffa ∷ 0xa4506ceb ∷ 0xbef9a3f7
    ∷ 0xc67178f2 ∷ []

-- The zeros up to 56 modulo 64, on fuel: 64 are enough.
unfoldable pub zeros : ℕ → ℕ → Bytes
zeros zero len = []
zeros (suc fuel) len = let rest = zeros fuel (suc len) in if len % 64 == 56 then [] else 0 ∷ rest

-- `to_be_bytes`, of so many bytes
unfoldable pub be_bytes : ℕ → ℕ → Bytes
be_bytes zero n = []
be_bytes (suc k) n = n / 2 ^ (8 * k) % 2 ^ 8 ∷ be_bytes k n

unfoldable pub padded : Bytes → Bytes
padded input = input ++ 0x80 ∷ zeros 64 (length input + 1) ++ be_bytes 8 (length input * 8 % 2 ^ 64)

-- The words of a block, four bytes each.
unfoldable pub block_words : Bytes → List ℕ
block_words (a ∷ b ∷ c ∷ d ∷ bytes) = (a * 2 ^ 24 + b * 2 ^ 16 + c * 2 ^ 8 + d) ∷ block_words bytes
block_words _ = []

abbrev pub small_sigma_0 : ℕ → ℕ
small_sigma_0 x = bit_xor (bit_xor (rotate_right x 7) (rotate_right x 18)) (x / 2 ^ 3)

abbrev pub small_sigma_1 : ℕ → ℕ
small_sigma_1 x = bit_xor (bit_xor (rotate_right x 17) (rotate_right x 19)) (x / 2 ^ 10)

-- The next word, behind those so far.
abbrev pub next_word : List ℕ → ℕ
next_word w =
    let i = length w in
    wrapping_add_32
      (wrapping_add_32 (wrapping_add_32 (get_or w (i - 16) 0) (small_sigma_0 (get_or w (i - 15) 0)))
        (get_or w (i - 7) 0))
      (small_sigma_1 (get_or w (i - 2) 0))

unfoldable pub extended : ℕ → List ℕ → List ℕ
extended zero w = w
extended (suc n) w = extended n (w ++ next_word w ∷ [])

abbrev pub round : Words → ℕ → ℕ → Words
round s k w =
    let s1 = bit_xor (bit_xor (rotate_right s.e 6) (rotate_right s.e 11)) (rotate_right s.e 25) in
    let ch = bit_xor (bit_and s.e s.f) (bit_and (u32_max - s.e) s.g) in
    let t1 = wrapping_add_32 (wrapping_add_32 (wrapping_add_32 (wrapping_add_32 s.h s1) ch) k) w in
    let s0 = bit_xor (bit_xor (rotate_right s.a 2) (rotate_right s.a 13)) (rotate_right s.a 22) in
    let maj = bit_xor (bit_xor (bit_and s.a s.b) (bit_and s.a s.c)) (bit_and s.b s.c) in
    let t2 = wrapping_add_32 s0 maj in
    record {
      a = wrapping_add_32 t1 t2;
      b = s.a;
      c = s.b;
      d = s.c;
      e = wrapping_add_32 s.d t1;
      f = s.e;
      g = s.f;
      h = s.g;
    }

unfoldable pub rounds : Words → List ℕ → List ℕ → Words
rounds s (k ∷ ks) (w ∷ ws) = rounds (round s k w) ks ws
rounds s _ _ = s

abbrev pub add_words : Words → Words → Words
add_words s t = record {
  a = wrapping_add_32 s.a t.a;
  b = wrapping_add_32 s.b t.b;
  c = wrapping_add_32 s.c t.c;
  d = wrapping_add_32 s.d t.d;
  e = wrapping_add_32 s.e t.e;
  f = wrapping_add_32 s.f t.f;
  g = wrapping_add_32 s.g t.g;
  h = wrapping_add_32 s.h t.h;
}

unfoldable pub compress_block : Words → Bytes → Words
compress_block s block = add_words s (rounds s round_constants (extended 48 (block_words block)))

-- `chunks_exact(64)`, on fuel: the number of bytes is enough.
unfoldable pub compress_blocks : ℕ → Words → Bytes → Words
compress_blocks zero s msg = s
compress_blocks (suc fuel) s msg =
    if ltb (length msg) 64
    then s
    else compress_blocks fuel (compress_block s (take 64 msg)) (drop 64 msg)

abbrev pub hex_char : ℕ → ℕ
hex_char d = if ltb d 10 then d + 48 else d + 87

-- `{word:08x}`, of so many digits
unfoldable pub word_hex : ℕ → ℕ → Bytes
word_hex zero w = []
word_hex (suc k) w = hex_char (w / 16 ^ k % 16) ∷ word_hex k w

abbrev pub digest : Words → Bytes
digest s =
    word_hex 8 s.a
    ++ word_hex 8 s.b
    ++ word_hex 8 s.c
    ++ word_hex 8 s.d
    ++ word_hex 8 s.e
    ++ word_hex 8 s.f
    ++ word_hex 8 s.g
    ++ word_hex 8 s.h

unfoldable pub sha256_hex : Bytes → Bytes
sha256_hex input = let msg = padded input in digest (compress_blocks (length msg) initial msg)

unfoldable pub password_matches : Bytes → Bytes → Bool
password_matches password password_sha256 = constant_time_eq (sha256_hex password) password_sha256
