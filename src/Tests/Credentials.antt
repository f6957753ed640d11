-- ===== src/Tests/Credentials.antt =====
-- Runs of SHA-256 and of the credentials.
use ferro_http.Base.{
  ◌≡◌, refl, ◌↔◌, true, false, some, Bytes, codes, is_empty, strip_prefix, split_once, utf8_valid,
  trim,
}
use ferro_http.Auth.{base64_value, decode_groups, base64_decode, gathered, constant_time_eq}
use ferro_http.Auth.Sha256.{
  zeros, be_bytes, padded, block_words, extended, rounds, compress_block, compress_blocks, word_hex,
  sha256_hex,
}
use ferro_http.Auth.Basic.{credentials, compared, basic_auth_ok, basic_auth_ok_iff}

unfoldable hashing : Unit {0}
unfolding zeros be_bytes padded block_words extended rounds compress_block compress_blocks word_hex
    sha256_hex
hashing = tt

sha256_hex-abc :
    sha256_hex (codes "abc")
    ≡ codes "ba7816bf8f01cfea414140de5dae2223b00361a396177a9cb410ff61f20015ad"
unfolding hashing
sha256_hex-abc = refl

unfoldable decoding : Unit {0}
unfolding hashing base64_value decode_groups base64_decode gathered constant_time_eq credentials
    compared basic_auth_ok strip_prefix trim utf8_valid split_once
decoding = tt

-- `admin:secret`
abbrev admin_header : Bytes
admin_header = codes "Basic YWRtaW46c2VjcmV0"

abbrev secret_digest : Bytes
secret_digest = codes "2bb80d537b1da3e38bd30361aa855686bde0eacd7162fef6a25fe97bf527a25b"

credentials-admin_header : credentials admin_header ≡ some (codes "admin", codes "secret")
unfolding decoding
credentials-admin_header = refl

basic_auth_ok-admin_header : basic_auth_ok admin_header (codes "admin") secret_digest ≡ true
unfolding decoding
basic_auth_ok-admin_header = refl

basic_auth_ok_iff_example : (basic_auth_ok admin_header (codes "admin") secret_digest ≡ true) ↔ (
    (is_empty (codes "admin") ≡ false)
    × (is_empty secret_digest ≡ false)
    × (pass : Bytes) × (credentials admin_header ≡ some (codes "admin", pass))
    × (sha256_hex pass ≡ secret_digest))
basic_auth_ok_iff_example = basic_auth_ok_iff admin_header (codes "admin") secret_digest
