-- ===== src/Learning/Marking.antt =====
-- Marking a key as compared (app/src/state/contacts.ts, markVerified and knownFingerprint).
use crypt_mail.Prelude.{Option, none, some, List, [], ◌∷◌, map, find?, Text, text_eq, Locale}
use crypt_mail.Keyring.{ContactKey, Keyring, OtherKey, or_nil, find_key, choose_key}

-- Marking a key as compared (markVerified): the spelling of the fingerprint that is on file counts.
module _ (loc : Locale) (normalise : Text → Text) where
  abbrev pub fingerprints_of : ContactKey → List Text
  fingerprints_of contact =
      contact.fingerprint ∷ map (λ (k : OtherKey). k.fingerprint) (or_nil contact.other_keys)

  unfoldable pub known_fingerprint : ContactKey → Text → Option Text
  known_fingerprint contact fingerprint =
      find? (λ fp. text_eq (normalise fp) (normalise fingerprint)) (fingerprints_of contact)

  abbrev pub or_no_text : Option Text → Text
  or_no_text none = []
  or_no_text (some t) = t

  abbrev pub mark_found : Keyring → Text → Text → Text → Option ContactKey → Option Keyring
  mark_found keyring email confirmed at none = none
  mark_found keyring email confirmed at (some existing) =
      choose_key loc keyring email (or_no_text (known_fingerprint existing confirmed)) at

  -- `none` is a throw, which leaves the keyring.
  unfoldable pub mark_verified : Keyring → Text → Text → Text → Option Keyring
  mark_verified keyring email confirmed at =
      mark_found keyring email confirmed at (find_key loc keyring email)
