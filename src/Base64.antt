-- ===== src/Base64.antt =====
-- Base64 (app/src/lib/base64.ts, the byte functions): bytes to text and back. The shifts and masks are
-- on bytes, so `x >> k` is `x / 2 ^ k`, `x & (2 ^ k - 1)` is `x % 2 ^ k`, and `|` joins fields that do
-- not overlap, as a sum.
pub mod Inverse
pub mod Utf8
mod Tests
use crypt_mail.Prelude.{
  ℕ, zero, suc, ◌+◌, ◌*◌, ◌/◌, ◌%◌, ◌^◌, Bool, ◌&&◌, ◌||◌, List, [], ◌∷◌, leb, ◌==◌, if◌then◌else◌,
  filter, Text, codes,
}

abbrev pub alphabet : Text
alphabet = codes "ABCDEFGHIJKLMNOPQRSTUVWXYZabcdefghijklmnopqrstuvwxyz0123456789+/"

-- ALPHABET[i], for an index in range
abbrev pub char_at : Text → ℕ → ℕ
char_at [] i = 0
char_at (c ∷ s) zero = c
char_at (c ∷ s) (suc i) = char_at s i

-- ALPHABET.indexOf(c), for a character of the alphabet
abbrev pub index_of : Text → ℕ → ℕ
index_of [] c = 0
index_of (d ∷ s) c = let rest = index_of s c in if d == c then 0 else suc rest

unfoldable pub encode_char : ℕ → ℕ
encode_char n = char_at alphabet n

unfoldable pub decode_char : ℕ → ℕ
decode_char c = index_of alphabet c

unfoldable pub bytes_to_base64 : List ℕ → Text
bytes_to_base64 [] = []
bytes_to_base64 (b0 ∷ []) = encode_char (b0 / 4) ∷ encode_char (b0 % 4 * 16) ∷ b'=' ∷ b'=' ∷ []
bytes_to_base64 (b0 ∷ b1 ∷ []) =
    encode_char (b0 / 4)
    ∷ encode_char (b0 % 4 * 16 + b1 / 16)
    ∷ encode_char (b1 % 16 * 4)
    ∷ b'='
    ∷ []
bytes_to_base64 (b0 ∷ b1 ∷ b2 ∷ bytes) =
    encode_char (b0 / 4)
    ∷ encode_char (b0 % 4 * 16 + b1 / 16)
    ∷ encode_char (b1 % 16 * 4 + b2 / 64)
    ∷ encode_char (b2 % 64)
    ∷ bytes_to_base64 bytes

-- [A-Za-z0-9+/]
unfoldable pub is_base64_char : ℕ → Bool
is_base64_char c =
    (leb b'A' c && leb c b'Z')
    || (leb b'a' c && leb c b'z')
    || (leb b'0' c && leb c b'9')
    || c == b'+'
    || c == b'/'

-- The groups of four. One character that is left over writes past the end of the array, and is dropped.
unfoldable pub decode_groups : Text → List ℕ
decode_groups [] = []
decode_groups (c0 ∷ []) = []
decode_groups (c0 ∷ c1 ∷ []) =
    let n = decode_char c0 * 2 ^ 18 + decode_char c1 * 2 ^ 12 in (n / 2 ^ 16 % 256) ∷ []
decode_groups (c0 ∷ c1 ∷ c2 ∷ []) =
    let n = decode_char c0 * 2 ^ 18 + decode_char c1 * 2 ^ 12 + decode_char c2 * 2 ^ 6 in
    (n / 2 ^ 16 % 256) ∷ (n / 2 ^ 8 % 256) ∷ []
decode_groups (c0 ∷ c1 ∷ c2 ∷ c3 ∷ rest) =
    let n =
      decode_char c0 * 2 ^ 18 + decode_char c1 * 2 ^ 12 + decode_char c2 * 2 ^ 6 + decode_char c3 in
    (n / 2 ^ 16 % 256) ∷ (n / 2 ^ 8 % 256) ∷ (n % 256) ∷ decode_groups rest

unfoldable pub base64_to_bytes : Text → List ℕ
base64_to_bytes input = decode_groups (filter is_base64_char input)
