-- ===== src/Base64/Inverse.antt =====
-- Decoding undoes encoding.
use crypt_mail.Prelude.{
  ℕ, zero, suc, ◌+◌, ◌*◌, ◌/◌, ◌%◌, ◌^◌, ◌<◌, ◌≡◌, refl, Bool, true, false, ◌&&◌, List, [], ◌∷◌,
  arith, ◌==◌, ==_iff, All,
}
use crypt_mail.Base64.{
  encode_char, decode_char, bytes_to_base64, is_base64_char, decode_groups, base64_to_bytes,
}

-- The sextets up to a bound, all tried.
passes : (ℕ → Bool) → ℕ → Bool
passes test zero = true
passes test (suc top) = passes test top && test top

passes-apply :
    (test : ℕ → Bool) (sextet top : ℕ) → sextet < top → passes test top ≡ true → test sextet ≡ true
unfolding passes
passes-apply test sextet zero small tried = absurd (omega arith)
passes-apply test sextet (suc top) small tried = ground (arith, passes-apply test sextet top)

decode_test : ℕ → Bool
decode_test sextet = decode_char (encode_char sextet) == sextet

clean_test : ℕ → Bool
clean_test sextet = is_base64_char (encode_char sextet)

all_decode : passes decode_test 64 ≡ true
unfolding passes decode_test decode_char encode_char
all_decode = refl

all_clean : passes clean_test 64 ≡ true
unfolding passes clean_test is_base64_char encode_char
all_clean = refl

decode-encode : (n : ℕ) → n < 64 → decode_char (encode_char n) ≡ n
unfolding decode_test
decode-encode n h =
    (==_iff (decode_char (encode_char n)) n).0 (passes-apply decode_test n 64 h all_decode)

encode-clean : (n : ℕ) → n < 64 → is_base64_char (encode_char n) ≡ true
unfolding clean_test
encode-clean n h = passes-apply clean_test n 64 h all_clean

padding_dropped : is_base64_char b'=' ≡ false
unfolding is_base64_char
padding_dropped = refl

-- Every byte is below 256.
abbrev pub AreBytes : List ℕ → Type 0
AreBytes = All (λ b. b < 256)

-- Three bytes through four characters, and the two shorter groups.
group_of_three :
    (b0 b1 b2 : ℕ)
    → b0 < 256
    → b1 < 256
    → b2 < 256
    → let n =
        b0 / 4 * 2 ^ 18
        + (b0 % 4 * 16 + b1 / 16) * 2 ^ 12
        + (b1 % 16 * 4 + b2 / 64) * 2 ^ 6
        + b2 % 64 in
      (n / 2 ^ 16 % 256 ≡ b0) × (n / 2 ^ 8 % 256 ≡ b1) × (n % 256 ≡ b2)
group_of_three b0 b1 b2 h0 h1 h2 = omega arith

group_of_two :
    (b0 b1 : ℕ)
    → b0 < 256
    → b1 < 256
    → let n = b0 / 4 * 2 ^ 18 + (b0 % 4 * 16 + b1 / 16) * 2 ^ 12 + b1 % 16 * 4 * 2 ^ 6 in
      (n / 2 ^ 16 % 256 ≡ b0) × (n / 2 ^ 8 % 256 ≡ b1)
group_of_two b0 b1 h0 h1 = omega arith

group_of_one : (b0 : ℕ) → b0 < 256 → (b0 / 4 * 2 ^ 18 + b0 % 4 * 16 * 2 ^ 12) / 2 ^ 16 % 256 ≡ b0
group_of_one b0 h0 = omega arith

-- Any bytes are read back from their text: encoding loses nothing, whatever the length.
pub base64_to_bytes-bytes_to_base64 :
    (bytes : List ℕ) → AreBytes bytes → base64_to_bytes (bytes_to_base64 bytes) ≡ bytes
unfolding base64_to_bytes bytes_to_base64 decode_groups
base64_to_bytes-bytes_to_base64 [] h = refl
base64_to_bytes-bytes_to_base64 (b0 ∷ []) h =
    simp
      (
        encode-clean (b0 / 4) (omega arith),
        encode-clean (b0 % 4 * 16) (omega arith),
        padding_dropped,
        decode-encode (b0 / 4) (omega arith),
        decode-encode (b0 % 4 * 16) (omega arith),
      )
      (rw (group_of_one b0 h.0))
base64_to_bytes-bytes_to_base64 (b0 ∷ b1 ∷ []) h =
    simp
      (
        encode-clean (b0 / 4) (omega arith),
        encode-clean (b0 % 4 * 16 + b1 / 16) (omega arith),
        encode-clean (b1 % 16 * 4) (omega arith),
        padding_dropped,
        decode-encode (b0 / 4) (omega arith),
        decode-encode (b0 % 4 * 16 + b1 / 16) (omega arith),
        decode-encode (b1 % 16 * 4) (omega arith),
      )
      (rw ((group_of_two b0 b1 h.0 h.1.0).0, (group_of_two b0 b1 h.0 h.1.0).1))
base64_to_bytes-bytes_to_base64 (b0 ∷ b1 ∷ b2 ∷ bytes) h =
    simp
      (
        encode-clean (b0 / 4) (omega arith),
        encode-clean (b0 % 4 * 16 + b1 / 16) (omega arith),
        encode-clean (b1 % 16 * 4 + b2 / 64) (omega arith),
        encode-clean (b2 % 64) (omega arith),
        decode-encode (b0 / 4) (omega arith),
        decode-encode (b0 % 4 * 16 + b1 / 16) (omega arith),
        decode-encode (b1 % 16 * 4 + b2 / 64) (omega arith),
        decode-encode (b2 % 64) (omega arith),
      )
      (let (first, second, third) = group_of_three b0 b1 b2 h.0 h.1.0 h.1.1.0 in
        cc (first, second, third, base64_to_bytes-bytes_to_base64 bytes h.1.1.1))
