-- ===== src/Base64/Utf8/Reading.antt =====
-- What UTF-8 writes of a text reads back as the text, alone and through base64.
use crypt_mail.Prelude.{
  ℕ, ◌+◌, ◌-◌, ◌*◌, ◌/◌, ◌%◌, ◌≤◌, ◌<◌, ◌≡◌, refl, sym, ap, ◌∙◌, inl, inr, Bool, true, false, ◌&&◌,
  ◌||◌, not, List, [], ◌∷◌, ◌++◌, arith, ltb, leb, Bool-cases, Text, append_nil,
}
use crypt_mail.Base64.Inverse.{AreBytes, base64_to_bytes-bytes_to_base64}
use crypt_mail.Base64.Utf8.{
  is_high, pair_of, bytes_of, utf8_to_bytes, code_point, more_bytes, units_of, decode_from,
  bytes_to_utf8, encode_utf8_base64, decode_utf8_base64,
}

-- Code units, where every high surrogate that something follows is followed by a low one.
abbrev pub is_low : ℕ → Bool
is_low d = leb 56320 d && leb d 57343

abbrev pub is_paired : Text → Bool
is_paired [] = true
is_paired (c ∷ []) = ltb c 65536
is_paired (c ∷ d ∷ s) = ltb c 65536 && ((not (is_high c) || is_low d) && is_paired (d ∷ s))

-- Reading one code point, by the number of its bytes.
units_of-small : (c : ℕ) → c < 65536 → units_of c ≡ c ∷ []
unfolding units_of
units_of-small c h = ground arith

decode-one : (b : ℕ) (rest : List ℕ) → b < 128 → decode_from 0 (b ∷ rest) ≡ b ∷ decode_from 0 rest
unfolding decode_from code_point more_bytes units_of
decode-one b rest h = ground arith

-- The first byte tells how many bytes follow.
pub more_than : (b n : ℕ) → n ≤ b → ltb b n ≡ false
more_than b n h = ground arith

less_than : (b n : ℕ) → b < n → ltb b n ≡ true
less_than b n h = ground arith

decode-two :
    (c b d : ℕ) (rest : List ℕ)
    → 192 ≤ b
    → b < 224
    → b % 32 * 64 + d % 64 ≡ c
    → decode_from 0 (b ∷ d ∷ rest) ≡ units_of c ++ decode_from 0 rest
unfolding decode_from code_point more_bytes
decode-two c b d rest low high e =
    simp (more_than b 128 (omega arith), less_than b 224 high)
      (ap (λ n. units_of n ++ decode_from 0 rest) e)

decode-three :
    (c b d e : ℕ) (rest : List ℕ)
    → 224 ≤ b
    → b < 240
    → b % 16 * 4096 + d % 64 * 64 + e % 64 ≡ c
    → decode_from 0 (b ∷ d ∷ e ∷ rest) ≡ units_of c ++ decode_from 0 rest
unfolding decode_from code_point more_bytes
decode-three c b d e rest low high same =
    simp (more_than b 128 (omega arith), more_than b 224 low, less_than b 240 high)
      (ap (λ n. units_of n ++ decode_from 0 rest) same)

decode-four :
    (c b d e f : ℕ) (rest : List ℕ)
    → 240 ≤ b
    → b % 8 * 262144 + d % 64 * 4096 + e % 64 * 64 + f % 64 ≡ c
    → decode_from 0 (b ∷ d ∷ e ∷ f ∷ rest) ≡ units_of c ++ decode_from 0 rest
unfolding decode_from code_point more_bytes
decode-four c b d e f rest low same =
    simp (more_than b 128 (omega arith), more_than b 224 (omega arith), more_than b 240 low)
      (ap (λ n. units_of n ++ decode_from 0 rest) same)

-- The code points that are written, up to the last that UTF-16 reaches.
decode-bytes_of :
    (c : ℕ) (rest : List ℕ)
    → c < 1114112
    → decode_from 0 (bytes_of c ++ rest) ≡ units_of c ++ decode_from 0 rest
unfolding bytes_of
decode-bytes_of c rest h = elim (Bool-cases (ltb c 128)) [
  | inl a ↦ simp a (
      decode-one c rest (ground arith)
      ∙ ap (λ u. u ++ decode_from 0 rest) (sym (units_of-small c (ground arith))))
  | inr a ↦ elim (Bool-cases (ltb c 2048)) [
    | inl b ↦
        simp (a, b)
          (decode-two c (192 + c / 64) (128 + c % 64) rest (omega arith) (ground arith)
            (ground arith))
    | inr b ↦ elim (Bool-cases (ltb c 65536)) [
      | inl d ↦
          simp (a, b, d)
            (decode-three c (224 + c / 4096) (128 + c / 64 % 64) (128 + c % 64) rest (omega arith)
              (ground arith) (ground arith))
      | inr d ↦
          simp (a, b, d)
            (decode-four c (240 + c / 262144) (128 + c / 4096 % 64) (128 + c / 64 % 64)
              (128 + c % 64) rest (omega arith) (ground arith))
    ]
  ]
]

surrogate_bounds : (c low top : ℕ) → (leb low c && leb c top) ≡ true → (low ≤ c) × (c ≤ top)
surrogate_bounds c low top h = (ground arith, ground arith)

-- A pair of surrogates is one code point, of which the two are read again.
pub pair_of-IsBelow :
    (c d : ℕ) → is_high c ≡ true → is_low d ≡ true → (65535 < pair_of c d) × (pair_of c d < 1114112)
unfolding is_high pair_of
pair_of-IsBelow c d h k = (ground arith, ground arith)

units_of-pair_of :
    (c d : ℕ) → is_high c ≡ true → is_low d ≡ true → units_of (pair_of c d) ≡ c ∷ d ∷ []
unfolding is_high pair_of units_of
units_of-pair_of c d h k =
    let (c_low, c_top) = surrogate_bounds c 55296 56319 h in
    let (d_low, d_top) = surrogate_bounds d 56320 57343 k in
    simp (less_than 65535 (65536 + (c - 55296) * 1024 + d - 56320) (omega arith)) (
      ap (λ n. n ∷ (56320 + (65536 + (c - 55296) * 1024 + d - 56320 - 65536) % 1024) ∷ [])
        (omega arith)
      ∙ ap (λ n. c ∷ n ∷ []) (omega arith))

-- What holds of the text after the first unit.
pub is_paired-rest : (c : ℕ) (s : Text) → is_paired (c ∷ s) ≡ true → is_paired s ≡ true
is_paired-rest c [] h = refl
is_paired-rest c (d ∷ s) h = ground arith

pub is_paired-first : (c : ℕ) (s : Text) → is_paired (c ∷ s) ≡ true → c < 65536
is_paired-first c [] h = ground arith
is_paired-first c (d ∷ s) h = ground arith

pub is_paired-low :
    (c d : ℕ) (s : Text) → is_paired (c ∷ d ∷ s) ≡ true → is_high c ≡ true → is_low d ≡ true
is_paired-low c d s h k = ground arith

decode-nothing : decode_from 0 [] ≡ []
unfolding decode_from
decode-nothing = refl

decode-utf8_to_bytes : (s : Text) → is_paired s ≡ true → decode_from 0 (utf8_to_bytes s) ≡ s
unfolding utf8_to_bytes
decode-utf8_to_bytes [] h = decode-nothing
decode-utf8_to_bytes (c ∷ []) h =
    ap (decode_from 0) (sym (append_nil (bytes_of c)))
    ∙ decode-bytes_of c [] (omega (arith, is_paired-first c [] h))
    ∙ ap (λ u. u ++ decode_from 0 []) (units_of-small c (is_paired-first c [] h))
    ∙ ap (λ t. c ∷ t) decode-nothing
decode-utf8_to_bytes (c ∷ d ∷ s) h = elim (Bool-cases (is_high c)) [
  | inl high ↦
      let low = is_paired-low c d s h high in
      simp high (
        decode-bytes_of (pair_of c d) (utf8_to_bytes s) (pair_of-IsBelow c d high low).1
        ∙ ap (λ u. u ++ decode_from 0 (utf8_to_bytes s)) (units_of-pair_of c d high low)
        ∙ ap (λ t. c ∷ d ∷ t)
            (decode-utf8_to_bytes s (is_paired-rest d s (is_paired-rest c (d ∷ s) h))))
  | inr other ↦ simp other (
      decode-bytes_of c (utf8_to_bytes (d ∷ s)) (omega (arith, is_paired-first c (d ∷ s) h))
      ∙ ap (λ u. u ++ decode_from 0 (utf8_to_bytes (d ∷ s)))
          (units_of-small c (is_paired-first c (d ∷ s) h))
      ∙ ap (λ t. c ∷ t) (decode-utf8_to_bytes (d ∷ s) (is_paired-rest c (d ∷ s) h)))
]

pub bytes_to_utf8-utf8_to_bytes :
    (s : Text) → is_paired s ≡ true → bytes_to_utf8 (utf8_to_bytes s) ≡ s
unfolding bytes_to_utf8
bytes_to_utf8-utf8_to_bytes s h = decode-utf8_to_bytes s h

-- What is written are bytes.
bytes_of-AreBytes : (c : ℕ) → c < 1114112 → AreBytes (bytes_of c)
unfolding bytes_of
bytes_of-AreBytes c h = elim (Bool-cases (ltb c 128)) [
  | inl a ↦ simp a (ground arith, tt)
  | inr a ↦ elim (Bool-cases (ltb c 2048)) [
    | inl b ↦ simp (a, b) (ground arith, (omega arith, tt))
    | inr b ↦ elim (Bool-cases (ltb c 65536)) [
      | inl d ↦ simp (a, b, d) (ground arith, (omega arith, (omega arith, tt)))
      | inr d ↦ simp (a, b, d) (ground arith, (omega arith, (omega arith, (omega arith, tt))))
    ]
  ]
]

AreBytes-append : (xs ys : List ℕ) → AreBytes xs → AreBytes ys → AreBytes (xs ++ ys)
AreBytes-append [] ys h k = k
AreBytes-append (x ∷ xs) ys (h, hs) k = (h, AreBytes-append xs ys hs k)

utf8_to_bytes-AreBytes : (s : Text) → is_paired s ≡ true → AreBytes (utf8_to_bytes s)
unfolding utf8_to_bytes
utf8_to_bytes-AreBytes [] h = tt
utf8_to_bytes-AreBytes (c ∷ []) h = bytes_of-AreBytes c (omega (arith, is_paired-first c [] h))
utf8_to_bytes-AreBytes (c ∷ d ∷ s) h = elim (Bool-cases (is_high c)) [
  | inl high ↦
      let low = is_paired-low c d s h high in
      simp high (
        AreBytes-append (bytes_of (pair_of c d)) (utf8_to_bytes s)
          (bytes_of-AreBytes (pair_of c d) (pair_of-IsBelow c d high low).1)
          (utf8_to_bytes-AreBytes s (is_paired-rest d s (is_paired-rest c (d ∷ s) h))))
  | inr other ↦ simp other (
      AreBytes-append (bytes_of c) (utf8_to_bytes (d ∷ s))
        (bytes_of-AreBytes c (omega (arith, is_paired-first c (d ∷ s) h)))
        (utf8_to_bytes-AreBytes (d ∷ s) (is_paired-rest c (d ∷ s) h)))
]

-- A text whose high surrogates are followed by low ones comes back from its base64 unit for unit, whatever
-- its characters and its length: UTF-8, the base64 of its bytes, and the reading of both lose nothing.
pub decode_utf8_base64-encode_utf8_base64 :
    (s : Text) → is_paired s ≡ true → decode_utf8_base64 (encode_utf8_base64 s) ≡ s
unfolding decode_utf8_base64 encode_utf8_base64
decode_utf8_base64-encode_utf8_base64 s h =
    ap bytes_to_utf8
      (base64_to_bytes-bytes_to_base64 (utf8_to_bytes s) (utf8_to_bytes-AreBytes s h))
    ∙ bytes_to_utf8-utf8_to_bytes s h
