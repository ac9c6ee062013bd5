-- ===== src/Keyring/Upsert.antt =====
-- What learning a key does to the address it is for, and to all the others.
use crypt_mail.Prelude.{
  ◌≡◌, refl, sym, ap, ◌∙◌, subst, ◌≢◌, inl, inr, false, Option, none, some, arith, Option-cases,
  some_injective, find?, In, Text, text_eq_iff, text_eq_ne, lookup, lookup-insert,
  lookup-insert_self,
}
use crypt_mail.Keyring.{
  Keyring, ContactKey, OtherKey, PublicKeyInfo, Source, RotationEvidence, no_evidence, verified,
  changed, or_nil, has_fingerprint, as_other, with_other, noted, replaced, differing, upserted,
  upsert_key,
}

-- The list holds no entry for the fingerprint that the user has set aside.
abbrev pub NotSetAside : Text → ContactKey → Type 0
NotSetAside f c =
    (k : OtherKey) → find? (has_fingerprint f) (or_nil c.other_keys) ≡ some k → k.set_aside ≡ false

pub lookup-upsert_key_self :
    (ring : Keyring) (key : PublicKeyInfo) (source : Source) (name : Option Text)
    (rotation : RotationEvidence) (now : Text)
    → lookup key.email (upsert_key ring key source name rotation now)
      ≡ some (upserted (lookup key.email ring) key source name rotation now)
unfolding upsert_key
lookup-upsert_key_self ring key source name rotation now = lookup-insert_self key.email _ ring

pub lookup-upsert_key_known :
    (ring : Keyring) (key : PublicKeyInfo) (source : Source) (name : Option Text)
    (rotation : RotationEvidence) (now : Text) (entry : Option ContactKey)
    → lookup key.email ring ≡ entry
    → lookup key.email (upsert_key ring key source name rotation now)
      ≡ some (upserted entry key source name rotation now)
lookup-upsert_key_known ring key source name rotation now entry found =
    lookup-upsert_key_self ring key source name rotation now
    ∙ ap (λ o. some (upserted o key source name rotation now)) found

-- Learning a key for one address leaves what the ring holds for every other address.
pub lookup-upsert_key_ne :
    (ring : Keyring) (key : PublicKeyInfo) (source : Source) (name : Option Text)
    (rotation : RotationEvidence) (now email : Text)
    → key.email ≢ email
    → lookup email (upsert_key ring key source name rotation now) ≡ lookup email ring
unfolding upsert_key
lookup-upsert_key_ne ring key source name rotation now email n = ground (
  arith,
  text_eq_ne key.email email n,
  lookup-insert key.email email (upserted (lookup key.email ring) key source name rotation now)
      ring,
)

-- What an entry shows after its key changed without proof.
pub record IsBlocked (old : ContactKey) (key : PublicKeyInfo) (now : Text) (c : ContactKey)
    : Type 0 where
  pub distrusted : c.trust ≡ changed
  pub adopted : c.fingerprint ≡ key.fingerprint
  pub remembered : c.previous_fingerprint ≡ some old.fingerprint
  pub unverified : c.verified_at ≡ none
  pub dated : c.changed_at ≡ some now
  pub kept : In (as_other old) (or_nil c.other_keys)

differing-IsBlocked :
    (old : ContactKey) (key : PublicKeyInfo) (source : Source) (name : Option Text)
    (known : Option OtherKey) (now : Text)
    → ((k : OtherKey) → known ≡ some k → k.set_aside ≡ false)
    → IsBlocked old key now (differing old key source name no_evidence known now)
unfolding differing replaced with_other
differing-IsBlocked old key source name none now h = record {
  distrusted = refl;
  adopted = refl;
  remembered = refl;
  unverified = refl;
  dated = refl;
  kept = inl refl;
}
differing-IsBlocked old key source name (some k) now h = simp (h k refl) (record {
  distrusted = refl;
  adopted = refl;
  remembered = refl;
  unverified = refl;
  dated = refl;
  kept = inl refl;
})

-- A key that arrives for a known address under another fingerprint, with no proof of a rotation and
-- not set aside by the user, blocks: the entry becomes `changed`, names the fingerprint it replaces,
-- loses its verification date, and keeps the old key among the other keys.
pub upsert_key-IsBlocked :
    (ring : Keyring) (key : PublicKeyInfo) (source : Source) (name : Option Text) (now : Text)
    (old : ContactKey)
    → lookup key.email ring ≡ some old
    → old.fingerprint ≢ key.fingerprint
    → NotSetAside key.fingerprint old
    → (c : ContactKey) × (lookup key.email (upsert_key ring key source name no_evidence now)
        ≡ some c)
      × IsBlocked old key now c
unfolding upserted
upsert_key-IsBlocked ring key source name now old found n open_question = (
  upserted (some old) key source name no_evidence now,
  lookup-upsert_key_known ring key source name no_evidence now (some old) found,
  simp (text_eq_ne old.fingerprint key.fingerprint n) (
      differing-IsBlocked old key source name
        (find? (has_fingerprint key.fingerprint) (or_nil old.other_keys)) now open_question),
)

differing-trust :
    (old : ContactKey) (key : PublicKeyInfo) (source : Source) (name : Option Text)
    (rotation : RotationEvidence) (known : Option OtherKey) (now : Text)
    → (differing old key source name rotation known now).trust ≡ verified
    → (old.trust ≡ verified)
      × (old.fingerprint ≡ (differing old key source name rotation known now).fingerprint)
unfolding differing replaced noted with_other
differing-trust old key source name rotation known now h = ground arith

upserted-some-trust :
    (old : ContactKey) (key : PublicKeyInfo) (source : Source) (name : Option Text)
    (rotation : RotationEvidence) (now : Text)
    → (upserted (some old) key source name rotation now).trust ≡ verified
    → (old.trust ≡ verified)
      × (old.fingerprint ≡ (upserted (some old) key source name rotation now).fingerprint)
unfolding upserted
upserted-some-trust old key source name rotation now h = ground (
  arith,
  text_eq_iff old.fingerprint key.fingerprint,
  differing-trust old key source name rotation
      (find? (has_fingerprint key.fingerprint) (or_nil old.other_keys)) now,
)

upserted-none-trust :
    (key : PublicKeyInfo) (source : Source) (name : Option Text) (rotation : RotationEvidence)
    (now : Text) (c : ContactKey)
    → upserted none key source name rotation now ≡ c
    → c.trust ≢ verified
unfolding upserted
upserted-none-trust key source name rotation now c e v = cc

upserted-trust :
    (old : ContactKey) (key : PublicKeyInfo) (source : Source) (name : Option Text)
    (rotation : RotationEvidence) (now : Text) (c : ContactKey)
    → upserted (some old) key source name rotation now ≡ c
    → c.trust ≡ verified
    → (old.trust ≡ verified) × (old.fingerprint ≡ c.fingerprint)
upserted-trust old key source name rotation now c e v =
    subst (λ (d : ContactKey). (old.trust ≡ verified) × (old.fingerprint ≡ d.fingerprint)) e
      (upserted-some-trust old key source name rotation now
        (ap (λ (d : ContactKey). d.trust) e ∙ v))

-- An entry is `verified` after a key was learnt only if it was `verified` before, under the same
-- fingerprint: no source, and no proof of a rotation, verifies a key.
pub upsert_key-verified :
    (ring : Keyring) (key : PublicKeyInfo) (source : Source) (name : Option Text)
    (rotation : RotationEvidence) (now : Text) (c : ContactKey)
    → lookup key.email (upsert_key ring key source name rotation now) ≡ some c
    → c.trust ≡ verified
    → (old : ContactKey) × (lookup key.email ring ≡ some old)
      × (old.trust ≡ verified)
      × (old.fingerprint ≡ c.fingerprint)
upsert_key-verified ring key source name rotation now c found v =
    elim (Option-cases (lookup key.email ring)) [
      | inl fresh ↦ absurd (upserted-none-trust key source name rotation now c (known none fresh) v)
      | inr (old, was) ↦
          let (trusted, same) =
            upserted-trust old key source name rotation now c (known (some old) was) v in
          (old, was, trusted, same)
    ]
  where
    known :
        (entry : Option ContactKey)
        → lookup key.email ring ≡ entry
        → upserted entry key source name rotation now ≡ c
    known entry was =
        some_injective _ _
          (sym (lookup-upsert_key_known ring key source name rotation now entry was) ∙ found)
