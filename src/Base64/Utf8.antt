-- ===== src/Base64/Utf8.antt =====
-- UTF-8 and its base64 (app/src/lib/base64.ts, the text functions). A text is a list of UTF-16 code units.
-- The shifts and masks are written as quotients, remainders and sums, as for the bytes.
pub mod Reading
pub mod Measuring
use crypt_mail.Prelude.{
  ℕ, zero, suc, ◌+◌, ◌-◌, ◌*◌, ◌/◌, ◌%◌, Bool, ◌&&◌, List, [], ◌∷◌, ◌++◌, ltb, leb, if◌then◌else◌,
  Text,
}
use crypt_mail.Base64.{bytes_to_base64, base64_to_bytes}

-- c >= 0xd800 && c <= 0xdbff
unfoldable pub is_high : ℕ → Bool
is_high c = leb 55296 c && leb c 56319

-- 0x10000 + ((c - 0xd800) << 10) + (d - 0xdc00), the addition first: the sum is never negative.
unfoldable pub pair_of : ℕ → ℕ → ℕ
pair_of c d = 65536 + (c - 55296) * 1024 + d - 56320

-- The bytes that are pushed for one code point.
unfoldable pub bytes_of : ℕ → List ℕ
bytes_of c =
    if ltb c 128
    then c ∷ []
    else if ltb c 2048
    then (192 + c / 64) ∷ (128 + c % 64) ∷ []
    else if ltb c 65536
    then (224 + c / 4096) ∷ (128 + c / 64 % 64) ∷ (128 + c % 64) ∷ []
    else (240 + c / 262144) ∷ (128 + c / 4096 % 64) ∷ (128 + c / 64 % 64) ∷ (128 + c % 64) ∷ []

-- A high surrogate takes the next unit with it, whatever that is.
unfoldable pub utf8_to_bytes : Text → List ℕ
utf8_to_bytes [] = []
utf8_to_bytes (c ∷ []) = bytes_of c
utf8_to_bytes (c ∷ d ∷ s) =
    let after = utf8_to_bytes s in
    let rest = utf8_to_bytes (d ∷ s) in
    if is_high c then bytes_of (pair_of c d) ++ after else bytes_of c ++ rest

unfoldable pub utf8_byte_length : Text → ℕ
utf8_byte_length [] = 0
utf8_byte_length (c ∷ []) = if ltb c 128 then 1 else if ltb c 2048 then 2 else 3
utf8_byte_length (c ∷ d ∷ s) =
    let after = utf8_byte_length s in
    let rest = utf8_byte_length (d ∷ s) in
    if ltb c 128
    then 1 + rest
    else if ltb c 2048
    then 2 + rest
    else if is_high c
    then 4 + after
    else 3 + rest

-- bytes[i + k] & 63: past the end it is 0.
abbrev pub tail_bits : List ℕ → ℕ → ℕ
tail_bits [] k = 0
tail_bits (b ∷ bytes) zero = b % 64
tail_bits (b ∷ bytes) (suc k) = tail_bits bytes k

-- The code point that begins with a byte, and how many more bytes it takes.
unfoldable pub code_point : ℕ → List ℕ → ℕ
code_point b bytes =
    if ltb b 128
    then b
    else if ltb b 224
    then b % 32 * 64 + tail_bits bytes 0
    else if ltb b 240
    then b % 16 * 4096 + tail_bits bytes 0 * 64 + tail_bits bytes 1
    else b % 8 * 262144 + tail_bits bytes 0 * 4096 + tail_bits bytes 1 * 64 + tail_bits bytes 2

unfoldable pub more_bytes : ℕ → ℕ
more_bytes b = if ltb b 128 then 0 else if ltb b 224 then 1 else if ltb b 240 then 2 else 3

unfoldable pub units_of : ℕ → Text
units_of c =
    if ltb 65535 c then (55296 + (c - 65536) / 1024) ∷ (56320 + (c - 65536) % 1024) ∷ [] else c ∷ []

-- The loop over the bytes, where the first of them may be ones that are already taken.
unfoldable pub decode_from : ℕ → List ℕ → Text
decode_from taken [] = []
decode_from (suc taken) (b ∷ bytes) = decode_from taken bytes
decode_from zero (b ∷ bytes) = units_of (code_point b bytes) ++ decode_from (more_bytes b) bytes

unfoldable pub bytes_to_utf8 : List ℕ → Text
bytes_to_utf8 bytes = decode_from 0 bytes

unfoldable pub encode_utf8_base64 : Text → Text
encode_utf8_base64 s = bytes_to_base64 (utf8_to_bytes s)

unfoldable pub decode_utf8_base64 : Text → Text
decode_utf8_base64 base64 = bytes_to_utf8 (base64_to_bytes base64)
