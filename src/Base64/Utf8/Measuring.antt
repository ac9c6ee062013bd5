-- ===== src/Base64/Utf8/Measuring.antt =====
-- The byte length that is counted is that of the bytes.
use crypt_mail.Prelude.{
  ℕ, ◌+◌, ◌≡◌, ap, ◌∙◌, ◌<◌, refl, inl, inr, true, false, [], ◌∷◌, arith, ltb, if◌then◌else◌,
  Bool-cases, length, Text, length-append,
}
use crypt_mail.Base64.Utf8.{is_high, pair_of, bytes_of, utf8_to_bytes, utf8_byte_length}
use crypt_mail.Base64.Utf8.Reading.{
  is_paired, is_paired-rest, is_paired-first, is_paired-low, more_than, pair_of-IsBelow,
}

length-bytes_of_unit :
    (c : ℕ)
    → ltb c 65536 ≡ true
    → length (bytes_of c) ≡ (if ltb c 128 then 1 else if ltb c 2048 then 2 else 3)
unfolding bytes_of
length-bytes_of_unit c h = elim (Bool-cases (ltb c 128)) [
  | inl a ↦ simp a refl
  | inr a ↦ elim (Bool-cases (ltb c 2048)) [
    | inl b ↦ simp (a, b) refl
    | inr b ↦ simp (a, b, h) refl
  ]
]

length-bytes_of_pair : (c : ℕ) → 65535 < c → length (bytes_of c) ≡ 4
unfolding bytes_of
length-bytes_of_pair c h =
    simp (more_than c 128 (omega arith), more_than c 2048 (omega arith), more_than c 65536 h) refl

above_ascii : (c : ℕ) → is_high c ≡ true → ltb c 128 ≡ false
unfolding is_high
above_ascii c h = ground arith

above_two : (c : ℕ) → is_high c ≡ true → ltb c 2048 ≡ false
unfolding is_high
above_two c h = ground arith

-- The length that is counted without building the bytes is the number of the bytes, for every text whose
-- high surrogates are followed by low ones.
pub length-utf8_to_bytes :
    (s : Text) → is_paired s ≡ true → length (utf8_to_bytes s) ≡ utf8_byte_length s
unfolding utf8_to_bytes utf8_byte_length
length-utf8_to_bytes [] h = refl
length-utf8_to_bytes (c ∷ []) h = length-bytes_of_unit c h
length-utf8_to_bytes (c ∷ d ∷ s) h = elim (Bool-cases (is_high c)) [
  | inl high ↦
      let low = is_paired-low c d s h high in
      simp (above_ascii c high, above_two c high, high)
        (length-append (bytes_of (pair_of c d)) (utf8_to_bytes s)
          ∙ ap (λ n. n + length (utf8_to_bytes s))
              (length-bytes_of_pair (pair_of c d) (pair_of-IsBelow c d high low).0)
          ∙ ap (λ n. 4 + n)
              (length-utf8_to_bytes s (is_paired-rest d s (is_paired-rest c (d ∷ s) h))))
  | inr other ↦ simp other (
      length-append (bytes_of c) (utf8_to_bytes (d ∷ s))
      ∙ ap (λ n. n + length (utf8_to_bytes (d ∷ s)))
          (length-bytes_of_unit c (ground (arith, is_paired-first c (d ∷ s) h)))
      ∙ ap (λ n. (if ltb c 128 then 1 else if ltb c 2048 then 2 else 3) + n)
          (length-utf8_to_bytes (d ∷ s) (is_paired-rest c (d ∷ s) h))
      ∙ ground arith)
]
