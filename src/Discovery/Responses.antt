-- ===== src/Discovery/Responses.antt =====
-- What one response says of a key (app/src/keys/discovery.ts, fetchKey).
use crypt_mail.Prelude.{
  ℕ, ◌≡◌, ◌↔◌, ◌==◌, arith, refl, sym, ap, ◌∙◌, ◌≢◌, ◌⊎◌, inl, inr, true, false, Option, none, some,
  List, [], ◌∷◌, Bool-cases, Text,
}
use crypt_mail.Base64.{bytes_to_base64}
use crypt_mail.Discovery.{
  Fetched, Response, server, armor_key, responded, threw, request, try_decode_ascii, from_mark_on,
  in_text, armored_or_binary, key_in, absent, served, failed, fetch_key,
}

-- A definite absence: the source said that there is no such key, or sent nothing.
abbrev pub IsAbsence : Fetched → Type 0
IsAbsence (threw expired aborted) = ⊥
IsAbsence (responded r) = (r.status ≡ 404) ⊎ ((r.ok ≡ true) × (r.bytes ≡ []))

-- A response with a key in it.
abbrev pub HasKey : Fetched → Type 0
HasKey (threw expired aborted) = ⊥
HasKey (responded r) = (r.status ≢ 404) × (r.ok ≡ true) × (r.bytes ≢ [])

not_absent :
    (bytes : List ℕ) (b : ℕ) (text : Option Text) → armored_or_binary (b ∷ bytes) text ≢ absent
not_absent bytes b none h = cc h
not_absent bytes b (some armored) h = cc h

key_in-absent : (bytes : List ℕ) → key_in bytes ≡ absent → bytes ≡ []
unfolding key_in
key_in-absent [] h = refl
key_in-absent (b ∷ bytes) h = absurd (not_absent bytes b (in_text (try_decode_ascii (b ∷ bytes))) h)

key_in-served : (b : ℕ) (bytes : List ℕ) → (armored : Text) × (key_in (b ∷ bytes) ≡ served armored)
unfolding key_in
key_in-served b bytes = given (in_text (try_decode_ascii (b ∷ bytes)))
  where
    given :
        (text : Option Text)
        → (armored : Text) × (armored_or_binary (b ∷ bytes) text ≡ served armored)
    given none = (armor_key (bytes_to_base64 (b ∷ bytes)), refl)
    given (some armored) = (armored, refl)

key_in_nothing : key_in [] ≡ absent
unfolding key_in try_decode_ascii from_mark_on
key_in_nothing = refl

-- What a response comes to, by its status, its success and its bytes.
fetch_key_cases :
    (r : Response)
    → (r.status ≡ 404) × (fetch_key (responded r) ≡ absent)
      ⊎ (r.status ≢ 404) × (r.ok ≡ false) × (fetch_key (responded r) ≡ failed server)
      ⊎ (r.status ≢ 404) × (r.ok ≡ true) × (fetch_key (responded r) ≡ key_in r.bytes)
unfolding fetch_key request
fetch_key_cases r = elim (Bool-cases (r.status == 404)) [
  | inl e ↦ inl (ground arith, rw e refl)
  | inr n ↦ elim (Bool-cases r.ok) [
    | inl o ↦ inr (inr (ground arith, o, simp (n, o) refl))
    | inr o ↦ inr (inl (ground arith, o, simp (n, o) refl))
  ]
]

pub fetch_key-IsAbsence : (fetched : Fetched) → (fetch_key fetched ≡ absent) ↔ IsAbsence fetched
unfolding fetch_key request
fetch_key-IsAbsence (threw expired aborted) = ((λ h. absurd (cc h)), absurd)
fetch_key-IsAbsence (responded r) = elim (fetch_key_cases r) [
  | inl (gone, e) ↦ ((λ h. inl gone), (λ a. e))
  | inr (inl (other, refused, e)) ↦ (
    (λ h. absurd (cc (sym e ∙ h))),
    (λ a. elim a [ inl gone ↦ absurd (other gone) | inr (ok, empty) ↦ absurd (cc (refused, ok)) ]),
  )
  | inr (inr (other, ok, e)) ↦ (
    (λ h. inr (ok, key_in-absent r.bytes (sym e ∙ h))),
    (λ a. elim a [
      | inl gone ↦ absurd (other gone)
      | inr (yes_ok, empty) ↦ e ∙ ap key_in empty ∙ key_in_nothing
    ]),
  )
]

pub fetch_key-HasKey :
    (fetched : Fetched)
    → ((armored : Text) → fetch_key fetched ≡ served armored → HasKey fetched)
      × (HasKey fetched → (armored : Text) × (fetch_key fetched ≡ served armored))
unfolding fetch_key request
fetch_key-HasKey (threw expired aborted) = ((λ armored h. absurd (cc h)), absurd)
fetch_key-HasKey (responded r) = elim (fetch_key_cases r) [
  | inl (gone, e) ↦ ((λ armored h. absurd (cc (sym e ∙ h))), (λ k. absurd (k.0 gone)))
  | inr (inl (other, refused, e)) ↦
      ((λ armored h. absurd (cc (sym e ∙ h))), (λ k. absurd (cc (refused, k.1))))
  | inr (inr (other, ok, e)) ↦ (
    (λ armored h. (other, ok, λ empty. cc (sym e ∙ h, ap key_in empty ∙ key_in_nothing))),
    (λ k. given r.bytes e k.2),
  )
]
  where
    given :
        (bytes : List ℕ)
        → fetch_key (responded r) ≡ key_in bytes
        → bytes ≢ []
        → (armored : Text) × (fetch_key (responded r) ≡ served armored)
    given [] e some_bytes = absurd (some_bytes refl)
    given (b ∷ bytes) e some_bytes = let (armored, s) = key_in-served b bytes in (armored, e ∙ s)
