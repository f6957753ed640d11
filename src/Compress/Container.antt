-- ===== src/Compress/Container.antt =====
-- crates/core/src/compress.rs: a reader of the container, written from RFC 1952, gets the input back.
use ferro_http.Base.{
  ℕ, zero, suc, ◌+◌, ◌-◌, ◌*◌, ◌/◌, ◌%◌, ◌^◌, ◌≤◌, min, ◌≡◌, refl, ap, ◌∙◌, inl, inr, true, false,
  ◌&&◌, Option, none, some, [], ◌∷◌, ◌++◌, arith, ltb, ◌==◌, if◌then◌else◌, ==_iff, Bool-cases,
  length, take, drop, length-append, Bytes,
}
use Prim.Native.Nat.{bit_and, bit_xor, digits, differ, bit_xor-bitwise, bit_and-bitwise}
use ferro_http.Compress.{crc_bit, crc_bits, crc_bytes, crc32, le_bytes, gzip_encode}

-- The remainder register of RFC 1952, 8, one bit further: shifted, with the polynomial on a one.
abbrev pub shifted : ℕ → ℕ
shifted c = if c % 2 == 1 then bit_xor (c / 2) 0xedb88320 else c / 2

unfoldable pub shifted_by : ℕ → ℕ → ℕ
shifted_by zero c = c
shifted_by (suc n) c = shifted_by n (shifted c)

unfoldable pub checksum_from : ℕ → Bytes → ℕ
unfolding shifted_by
checksum_from c [] = c
checksum_from c (b ∷ bs) = checksum_from (shifted_by 8 (bit_xor c b)) bs

-- The CRC-32 of that section: the register starts and ends in ones' complement.
unfoldable pub checksum : Bytes → ℕ
unfolding checksum_from
checksum input = bit_xor (checksum_from 0xffffffff input) 0xffffffff

-- The number that four bytes are, the lowest first.
abbrev pub le_value : Bytes → ℕ
le_value (a ∷ b ∷ c ∷ d ∷ []) = a + 256 * b + 65536 * c + 16777216 * d
le_value _ = 0

-- The data, where its checksum and its length are those of the trailer.
abbrev pub verified : Bytes → Option Bytes → Option Bytes
verified trailer none = none
verified trailer (some input) =
    if le_value (take 4 trailer) == checksum input % 2 ^ 32
      && le_value (drop 4 trailer) == length input % 2 ^ 32
    then some input
    else none

-- What follows a header without optional fields: the compressed data and eight bytes.
unfoldable pub read_member : (Bytes → Option Bytes) → Bytes → Option Bytes
read_member inflate rest =
    if ltb (length rest) 8
    then none
    else verified (drop (length rest - 8) rest) (inflate (take (length rest - 8) rest))

-- A reader of one gzip member: the two bytes of the magic number, the method 8 (DEFLATE), no flag,
-- and six bytes of time, extra flags and system, which it does not look at.
unfoldable pub gunzip : (Bytes → Option Bytes) → Bytes → Option Bytes
gunzip inflate (id1 ∷ id2 ∷ method ∷ flags ∷ _ ∷ _ ∷ _ ∷ _ ∷ _ ∷ _ ∷ rest) =
    if id1 == 31 && id2 == 139 && method == 8 && flags == 0 then read_member inflate rest else none
gunzip inflate _ = none

differ-zero : (x : ℕ) → differ x 0 ≡ x
differ-zero zero = refl
differ-zero (suc x) = refl

digits-differ-zero : (n a : ℕ) → a ≤ n → digits (λ x. x) differ n a 0 ≡ a
digits-differ-zero zero a small = omega (arith, small)
digits-differ-zero (suc n) zero small = refl
digits-differ-zero (suc n) (suc a) small =
    omega (arith, digits-differ-zero n (suc a / 2) (omega (arith, small)), differ-zero (suc a % 2))

bit_xor-zero_right : (x : ℕ) → bit_xor x 0 ≡ x
bit_xor-zero_right x = (λ i. bit_xor-bitwise x 0 i) ∙ digits-differ-zero x x (omega arith)

digits-min-zero : (n a : ℕ) → a ≤ n → digits (λ x. 0) min n a 0 ≡ 0
digits-min-zero zero a small = refl
digits-min-zero (suc n) zero small = refl
digits-min-zero (suc n) (suc a) small =
    omega (arith, digits-min-zero n (suc a / 2) (omega (arith, small)))

-- The lowest bit.
bit_and-low : (x : ℕ) → bit_and x 1 ≡ x % 2
bit_and-low zero = refl
bit_and-low (suc x) =
    (λ i. bit_and-bitwise (suc x) 1 i) ∙ omega (arith, digits-min-zero x (suc x / 2) (omega arith))

crc_bit-shifted : (c : ℕ) → crc_bit c ≡ shifted c
unfolding crc_bit
crc_bit-shifted c = elim (Bool-cases (c % 2 == 1)) [
  | inl odd ↦
      let one : bit_and c 1 ≡ 1 = bit_and-low c ∙ (==_iff (c % 2) 1).0 odd in rw (one, odd) refl
  | inr even ↦
      let none_set : bit_and c 1 ≡ 0 = bit_and-low c ∙ ground (arith, even) in
      rw (none_set, even) (bit_xor-zero_right (c / 2))
]

crc_bits-shifted : (n c : ℕ) → crc_bits n c ≡ shifted_by n c
unfolding crc_bits shifted_by
crc_bits-shifted zero c = refl
crc_bits-shifted (suc n) c = rw (crc_bit-shifted c) (crc_bits-shifted n (shifted c))

crc_bytes-checksum : (c : ℕ) (bs : Bytes) → crc_bytes c bs ≡ checksum_from c bs
unfolding crc_bytes checksum_from
crc_bytes-checksum c [] = refl
crc_bytes-checksum c (b ∷ bs) =
    rw (crc_bits-shifted 8 (bit_xor c b)) (crc_bytes-checksum (shifted_by 8 (bit_xor c b)) bs)

crc32-checksum : (input : Bytes) → crc32 input ≡ checksum input
unfolding crc32 checksum
crc32-checksum input = rw (crc_bytes-checksum 0xffffffff input) refl

le_value-le_bytes : (n : ℕ) → le_value (le_bytes n) ≡ n % 2 ^ 32
le_value-le_bytes n = omega arith

take_all : (a b : Bytes) → take (length a) (a ++ b) ≡ a
take_all [] b = refl
take_all (x ∷ a) b = ap (◌∷◌ x) (take_all a b)

drop_all : (a b : Bytes) → drop (length a) (a ++ b) ≡ b
drop_all [] b = refl
drop_all (x ∷ a) b = drop_all a b

trailer_verified :
    (input : Bytes)
    → verified (le_bytes (crc32 input) ++ le_bytes (length input % 2 ^ 32)) (some input)
      ≡ some input
trailer_verified input =
    let sums : (le_value (le_bytes (crc32 input)) == checksum input % 2 ^ 32) ≡ true =
      (==_iff _ _).1
        (le_value-le_bytes (crc32 input) ∙ ap (λ c. c % 2 ^ 32) (crc32-checksum input)) in
    let lengths : (le_value (le_bytes (length input % 2 ^ 32)) == length input % 2 ^ 32) ≡ true =
      (==_iff _ _).1 (le_value-le_bytes (length input % 2 ^ 32) ∙ omega arith) in
    rw (sums, lengths) refl

-- Where the decoder of DEFLATE gives back what the encoder was given, a reader of RFC 1952 accepts
-- the container, with its magic number, method, flags, checksum and length, and yields the input.
pub gunzip-gzip_encode :
    (deflate : Bytes → Bytes) (inflate : Bytes → Option Bytes) (input : Bytes)
    → inflate (deflate input) ≡ some input
    → gunzip inflate (gzip_encode deflate input) ≡ some input
unfolding gunzip gzip_encode read_member
gunzip-gzip_encode deflate inflate input inflated =
    let packed = deflate input in
    let ending = le_bytes (crc32 input) ++ le_bytes (length input % 2 ^ 32) in
    let whole : length (packed ++ ending) ≡ length packed + 8 =
      omega (arith, length-append packed ending) in
    let long_enough : ltb (length (packed ++ ending)) 8 ≡ false = ground (arith, whole) in
    let front : length (packed ++ ending) - 8 ≡ length packed = omega (arith, whole) in
    rw (long_enough, front)
      (rw (take_all packed ending, drop_all packed ending, inflated) (trailer_verified input))
