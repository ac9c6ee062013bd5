-- ===== src/Base64/Tests.antt =====
-- Base64 at concrete inputs.
use crypt_mail.Prelude.{◌≡◌, refl, true, [], ◌∷◌, length, Text, codes}
use crypt_mail.Base64.{encode_char, bytes_to_base64}
use crypt_mail.Base64.Utf8.{
  is_high, pair_of, bytes_of, utf8_to_bytes, utf8_byte_length, encode_utf8_base64,
  decode_utf8_base64,
}
use crypt_mail.Base64.Utf8.Reading.{is_paired, decode_utf8_base64-encode_utf8_base64}
use crypt_mail.Base64.Utf8.Measuring.{length-utf8_to_bytes}

bytes_to_base64_test : bytes_to_base64 (77 ∷ 97 ∷ []) ≡ codes "TWE="
unfolding bytes_to_base64 encode_char
bytes_to_base64_test = refl

-- An accented letter, a plain one, the euro sign and a face, with an unpaired low surrogate at the end.
abbrev mixed : Text
mixed = 233 ∷ 65 ∷ 8364 ∷ 55357 ∷ 56832 ∷ 57343 ∷ []

utf8_to_bytes_test :
    utf8_to_bytes (8364 ∷ 55357 ∷ 56832 ∷ []) ≡ 226 ∷ 130 ∷ 172 ∷ 240 ∷ 159 ∷ 152 ∷ 128 ∷ []
unfolding utf8_to_bytes bytes_of is_high pair_of
utf8_to_bytes_test = refl

mixed_paired : is_paired mixed ≡ true
unfolding is_high
mixed_paired = refl

-- A high surrogate before a letter: three bytes are written, and four are counted.
unpaired_test : length (utf8_to_bytes (55296 ∷ 65 ∷ [])) ≡ 3
unfolding utf8_to_bytes bytes_of is_high pair_of
unpaired_test = refl

unpaired_counted_test : utf8_byte_length (55296 ∷ 65 ∷ []) ≡ 4
unfolding utf8_byte_length is_high
unpaired_counted_test = refl

decode_utf8_base64-encode_utf8_base64_example :
    decode_utf8_base64 (encode_utf8_base64 mixed) ≡ mixed
decode_utf8_base64-encode_utf8_base64_example =
    decode_utf8_base64-encode_utf8_base64 mixed mixed_paired

length-utf8_to_bytes_example : length (utf8_to_bytes mixed) ≡ utf8_byte_length mixed
length-utf8_to_bytes_example = length-utf8_to_bytes mixed mixed_paired
