-- ===== src/Recipients.antt =====
-- Key resolution for the recipients of a message (app/src/state/recipients.ts): what decides whether
-- a send is allowed at all.
pub mod Blocking
use crypt_mail.Prelude.{
  Bool, false, Option, none, some, List, map, if◌then◌else◌, Text, text_eq, Locale, canonical,
}
use crypt_mail.Keyring.{Trust, ContactKey, Keyring, find_key, seen, manual}

pub record Identity : Type 0 where
  pub email : Text
  pub fingerprint : Text
  pub public_key_armored : Text
  pub created_at : Text

-- The status `verified` carries its type's name, as `Trust.verified` does.
pub data Status : Type 0 where
  ok verified changed missing : Status

pub record RecipientState : Type 0 where
  pub email : Text
  pub key : Option ContactKey
  pub status : Status

-- This device's own key, shaped as an entry of the ring.
unfoldable pub own_key : Locale → Identity → ContactKey
own_key loc identity = record {
  email = canonical loc identity.email;
  fingerprint = identity.fingerprint;
  armored = identity.public_key_armored;
  user_id = none;
  name = none;
  trust = Trust.verified;
  source = manual;
  first_seen = identity.created_at;
  last_seen = identity.created_at;
  verified_at = none;
  changed_at = none;
  previous_fingerprint = none;
  other_keys = none;
}

abbrev pub status_of : Trust → Status
status_of Trust.changed = Status.changed
status_of Trust.verified = Status.verified
status_of seen = ok

-- The lookup in the ring, for an address that is not our own.
unfoldable pub contact_state : Text → Option ContactKey → RecipientState
contact_state email none = record { email = email; key = none; status = missing }
contact_state email (some key) = record {
  email = email;
  key = some key;
  status = status_of key.trust;
}

abbrev pub is_own : Locale → Option Identity → Text → Bool
is_own loc none email = false
is_own loc (some identity) email = text_eq (canonical loc email) (canonical loc identity.email)

abbrev own_state : Locale → Option Identity → Text → RecipientState
own_state loc none email = record { email = email; key = none; status = missing }
own_state loc (some identity) email = record {
  email = email;
  key = some (own_key loc identity);
  status = Status.verified;
}

unfoldable pub resolve_recipient : Locale → Keyring → Option Identity → Text → RecipientState
unfolding contact_state own_key
resolve_recipient loc keyring identity email =
    if is_own loc identity email
    then own_state loc identity email
    else contact_state email (find_key loc keyring email)

unfoldable pub resolve_recipient_states :
    Locale → Keyring → Option Identity → List Text → List RecipientState
unfolding resolve_recipient
resolve_recipient_states loc keyring identity emails =
    map (λ email. resolve_recipient loc keyring identity email) emails
