-- ===== src/Learning/Trusting.antt =====
-- What learning keys can do to the keyring, and which addresses it reports as unresolved.
use crypt_mail.Prelude.{
  ◌≡◌, refl, sym, ◌∙◌, subst, inl, inr, Bool, true, false, ◌||◌, not, Option, none, some, List, [],
  ◌∷◌, if◌then◌else◌, Bool-cases, Text, text_eq, text_eq_iff, is_empty, lookup, Locale, canonical,
}
use crypt_mail.Mail.{MailSummary}
use crypt_mail.Keyring.{
  ContactKey, Keyring, PublicKeyInfo, Source, Trust, upsert_key, autocrypt, directory, no_evidence,
}
use crypt_mail.Keyring.Upsert.{lookup-upsert_key_ne, upsert_key-verified}
use crypt_mail.Discovery.{LookupEnd, found, nothing_published, lookup_failed}
use crypt_mail.Learning.{
  Learner, Harvest, Round, autocrypt_key_from, learn_from, harvest_armored, harvest_autocrypt,
  has_key, header_empty, harvested, harvest_box, harvest_boxes, harvest_from_sender, claims,
  take_served, after_lookup, learn_one, learn_each, unknown_of, discover,
}

-- A property of keyrings that learning any key keeps.
abbrev pub IsKept : (Keyring → Type 0) → Text → Type 0
IsKept P now =
    (ring : Keyring) (info : PublicKeyInfo) (source : Source) (name : Option Text)
    → P ring
    → P (upsert_key ring info source name no_evidence now)

module _ (loc : Locale) (learner : Learner) (P : Keyring → Type 0)
    (kept : IsKept P learner.now) where
  learn_from-keeps :
      (ring : Keyring) (name : Option Text) (info : Option PublicKeyInfo)
      → P ring
      → P (learn_from loc learner ring name info)
  learn_from-keeps ring name none h = h
  learn_from-keeps ring name (some info) h = kept ring info autocrypt name h

  harvest_armored-keeps :
      (ring : Keyring) (name armored : Option Text)
      → P ring
      → P (harvest_armored loc learner ring name armored)
  harvest_armored-keeps ring name none h = h
  harvest_armored-keeps ring name (some armored) h =
      learn_from-keeps ring name (learner.import_public_key armored) h

  harvest_autocrypt-keeps :
      (ring : Keyring) (from : Text) (header name : Option Text)
      → P ring
      → P (harvest_autocrypt loc learner ring from header name)
  unfolding harvest_autocrypt
  harvest_autocrypt-keeps ring from none name h = h
  harvest_autocrypt-keeps ring from (some header) name h = elim (Bool-cases (is_empty header)) [
    | inl e ↦ rw e h
    | inr n ↦ rw n (harvest_armored-keeps ring name (autocrypt_key_from loc learner header from) h)
  ]

  harvest_box-keeps :
      (email : Text) (messages : List MailSummary) (ring : Keyring)
      → P ring
      → P (harvest_box loc learner email messages ring)
  unfolding harvest_box
  harvest_box-keeps email [] ring h = h
  harvest_box-keeps email (summary ∷ messages) ring h =
      let next = harvested loc learner ring summary in
      let kept_next =
        harvest_autocrypt-keeps ring summary.from.address summary.autocrypt summary.from.name h in
      either
        (header_empty loc learner summary.autocrypt
          || not (text_eq (canonical loc summary.from.address) email))
        (harvest_box loc learner email messages ring)
        (if has_key loc learner next email
          then next
          else harvest_box loc learner email messages next)
        (harvest_box-keeps email messages ring h)
        (either (has_key loc learner next email) next (harvest_box loc learner email messages next)
          kept_next (harvest_box-keeps email messages next kept_next))
    where
      either :
          (b : Bool) (first second : Keyring) → P first → P second → P (if b then first else second)
      either true first second h k = h
      either false first second h k = k

  harvest_boxes-keeps :
      (email : Text) (boxes : List (Option (List MailSummary))) (ring : Keyring) (failed : Bool)
      → P ring
      → P (harvest_boxes loc learner email boxes ring failed).keyring
  unfolding harvest_boxes
  harvest_boxes-keeps email [] ring failed h = h
  harvest_boxes-keeps email (none ∷ boxes) ring failed h =
      harvest_boxes-keeps email boxes ring true h
  harvest_boxes-keeps email (some messages ∷ boxes) ring failed h =
      let next = harvest_box loc learner email messages ring in
      let kept_next = harvest_box-keeps email messages ring h in
      elim (Bool-cases (has_key loc learner next email)) [
        | inl e ↦ rw e kept_next
        | inr n ↦ rw n (harvest_boxes-keeps email boxes next failed kept_next)
      ]

  take_served-keeps :
      (email armored : Text) (info : Option PublicKeyInfo) (ring : Keyring) (unresolved : List Text)
      → P ring
      → P (take_served loc learner email armored info ring unresolved).keyring
  take_served-keeps email armored none ring unresolved h = h
  take_served-keeps email armored (some info) ring unresolved h =
      elim (Bool-cases (claims loc learner info armored email)) [
        | inl e ↦ rw e (kept ring (record info { email = email }) directory none h)
        | inr n ↦ rw n h
      ]

  after_lookup-keeps :
      (email : Text) (end : LookupEnd) (mail : Harvest) (unresolved : List Text)
      → P mail.keyring
      → P (after_lookup loc learner email end mail unresolved).keyring
  after_lookup-keeps email (found armored source) mail unresolved h =
      take_served-keeps email armored (learner.import_public_key armored) mail.keyring unresolved h
  after_lookup-keeps email nothing_published mail unresolved h = h
  after_lookup-keeps email (lookup_failed code) mail unresolved h = h

  learn_one-keeps :
      (email : Text) (gathered : Round)
      → P gathered.keyring
      → P (learn_one loc learner email gathered).keyring
  unfolding learn_one harvest_from_sender
  learn_one-keeps email gathered h =
      let mail = harvest_from_sender loc learner gathered.keyring email in
      let kept_mail = harvest_boxes-keeps email (learner.searches email) gathered.keyring false h in
      elim (Bool-cases (has_key loc learner mail.keyring email)) [
        | inl e ↦ rw e kept_mail
        | inr n ↦
            rw n
              (after_lookup-keeps email (learner.look_up email) mail gathered.unresolved kept_mail)
      ]

  learn_each-keeps :
      (emails : List Text) (gathered : Round)
      → P gathered.keyring
      → P (learn_each loc learner emails gathered).keyring
  unfolding learn_each
  learn_each-keeps [] gathered h = h
  learn_each-keeps (email ∷ emails) gathered h =
      learn_each-keeps emails (learn_one loc learner email gathered)
        (learn_one-keeps email gathered h)

  pub discover-keeps :
      (self : Option Text) (ring : Keyring) (emails : List Text)
      → P ring
      → P (discover loc learner self ring emails).keyring
  unfolding discover
  discover-keeps self ring emails h =
      learn_each-keeps (unknown_of loc learner self ring emails)
        (record { keyring = ring; unresolved = [] }) h

-- Every verified entry of the second ring was verified in the first, under the same fingerprint.
abbrev pub VerifiesNothing : Keyring → Keyring → Type 0
VerifiesNothing before after =
    (email : Text) (c : ContactKey)
    → lookup email after ≡ some c
    → c.trust ≡ Trust.verified
    → (old : ContactKey) × (lookup email before ≡ some old)
      × (old.trust ≡ Trust.verified)
      × (old.fingerprint ≡ c.fingerprint)

VerifiesNothing-IsKept : (before : Keyring) (now : Text) → IsKept (VerifiesNothing before) now
VerifiesNothing-IsKept before now ring info source name h email c l v =
    elim (Bool-cases (text_eq info.email email)) [
      | inl e ↦
          let same = (text_eq_iff info.email email).0 e in
          let (old, was, trusted, fp) =
            upsert_key-verified ring info source name no_evidence now c
              (subst (λ k. lookup k (upsert_key ring info source name no_evidence now) ≡ some c)
                (sym same) l)
              v in
          let (first, first_was, first_trusted, first_fp) = h info.email old was trusted in
          (
            first,
            subst (λ k. lookup k before ≡ some first) same first_was,
            first_trusted,
            first_fp ∙ fp,
          )
      | inr n ↦
          h email c
            (sym (
                lookup-upsert_key_ne ring info source name no_evidence now email
                  (λ same. cc (sym n ∙ (text_eq_iff info.email email).1 same)))
              ∙ l)
            v
    ]

-- Discovery verifies nobody: after it, an entry of the keyring is `verified` only where it was verified
-- before, under the same fingerprint, whatever mail was found, whatever the directory served, and
-- whatever the keys claim.
pub discover-VerifiesNothing :
    (loc : Locale) (learner : Learner) (self : Option Text) (ring : Keyring) (emails : List Text)
    → VerifiesNothing ring (discover loc learner self ring emails).keyring
discover-VerifiesNothing loc learner self ring emails =
    discover-keeps loc learner (VerifiesNothing ring) (VerifiesNothing-IsKept ring learner.now) self
      ring emails (λ email c l v. (c, l, v, refl))
