-- ===== src/Keyring.antt =====
-- The keyring of correspondents' keys (app/src/store/keyring.ts): learning a key, choosing between
-- the keys seen for one address, and looking one up. `now` is the time stamp that the code reads.
-- Loading and saving the ring are storage and stand outside.
pub mod Shape
pub mod Reach
pub mod Upsert
pub mod Choose
mod Tests
use crypt_mail.Prelude.{
  Text, Bool, true, false, not, Option, none, some, List, [], ◌∷◌, map, filter, find?, Dict, lookup,
  insert, remove, text_eq, if◌then◌else◌, Locale, canonical,
}

pub data Trust : Type 0 where
  seen verified changed : Trust

pub data Source : Type 0 where
  manual autocrypt directory : Source

-- Whether the new key is signed by the one that it replaces.
pub data RotationEvidence : Type 0 where
  no_evidence self_signed : RotationEvidence

pub record PublicKeyInfo : Type 0 where
  pub email : Text
  pub fingerprint : Text
  pub armored : Text
  pub user_id : Option Text

-- A key seen for an address that is not the one in use; an absent `setAside` is `false`.
pub record OtherKey : Type 0 where
  pub fingerprint : Text
  pub armored : Text
  pub user_id : Option Text
  pub source : Source
  pub first_seen : Text
  pub last_seen : Text
  pub set_aside : Bool

pub record ContactKey : Type 0 where
  pub email : Text
  pub fingerprint : Text
  pub armored : Text
  pub user_id : Option Text
  pub name : Option Text
  pub trust : Trust
  pub source : Source
  pub first_seen : Text
  pub last_seen : Text
  pub verified_at : Option Text
  pub changed_at : Option Text
  pub previous_fingerprint : Option Text
  pub other_keys : Option (List OtherKey)

abbrev pub Keyring : Type 0
Keyring = Dict ContactKey

-- a ?? b, where both may be absent
abbrev pub or_else {ℓ} : {A : Type ℓ} → Option A → Option A → Option A
or_else none b = b
or_else (some a) b = some a

-- xs ?? []
abbrev pub or_nil {ℓ} : {A : Type ℓ} → Option (List A) → List A
or_nil none = []
or_nil (some xs) = xs

unfoldable pub undecided_keys : ContactKey → List OtherKey
undecided_keys contact = filter (λ k. not k.set_aside) (or_nil contact.other_keys)

-- `asOther(key)`; no caller passes a second argument
unfoldable pub as_other : ContactKey → OtherKey
as_other key = record {
  fingerprint = key.fingerprint;
  armored = key.armored;
  user_id = key.user_id;
  source = key.source;
  first_seen = key.first_seen;
  last_seen = key.last_seen;
  set_aside = false;
}

abbrev pub has_fingerprint : Text → OtherKey → Bool
has_fingerprint f k = text_eq k.fingerprint f

abbrev pub lacks_fingerprint : Text → OtherKey → Bool
lacks_fingerprint f k = not (text_eq k.fingerprint f)

unfoldable pub with_other : List OtherKey → OtherKey → List OtherKey
with_other others key = key ∷ filter (lacks_fingerprint key.fingerprint) others

-- The entry that a refresh of an unchanged key, or a first sight, writes.
refreshed : Option ContactKey → PublicKeyInfo → Source → Option Text → Text → ContactKey
refreshed none key source name now = record {
  email = key.email;
  fingerprint = key.fingerprint;
  armored = key.armored;
  user_id = key.user_id;
  name = name;
  trust = seen;
  source = source;
  first_seen = now;
  last_seen = now;
  verified_at = none;
  changed_at = none;
  previous_fingerprint = none;
  other_keys = none;
}
refreshed (some existing) key source name now = record {
  email = key.email;
  fingerprint = key.fingerprint;
  armored = key.armored;
  user_id = key.user_id;
  name = or_else name existing.name;
  trust = existing.trust;
  source = existing.source;
  first_seen = existing.first_seen;
  last_seen = now;
  verified_at = existing.verified_at;
  changed_at = existing.changed_at;
  previous_fingerprint = existing.previous_fingerprint;
  other_keys = existing.other_keys;
}

abbrev trust_after : RotationEvidence → Trust
trust_after self_signed = seen
trust_after no_evidence = changed

abbrev first_seen_or : Option OtherKey → Text → Text
first_seen_or none now = now
first_seen_or (some known) now = known.first_seen

-- The entry that a key under another fingerprint writes in place of `existing`. The core sets a key's user
-- id also where it is undefined, so the spread of `key` takes the place of the old one.
replaced :
    ContactKey
    → PublicKeyInfo
    → Source
    → Option Text
    → RotationEvidence
    → Option OtherKey
    → Text
    → ContactKey
unfolding with_other as_other
replaced existing key source name rotation known now = record {
  email = key.email;
  fingerprint = key.fingerprint;
  armored = key.armored;
  user_id = key.user_id;
  name = or_else name existing.name;
  trust = trust_after rotation;
  source = source;
  first_seen = first_seen_or known now;
  last_seen = now;
  verified_at = none;
  changed_at = some now;
  previous_fingerprint = some existing.fingerprint;
  other_keys = some (
      with_other (filter (lacks_fingerprint key.fingerprint) (or_nil existing.other_keys))
        (as_other existing));
}

-- A key that the user compared and chose against is noted, and not adopted.
noted : ContactKey → OtherKey → Text → ContactKey
unfolding with_other
noted existing known now = record existing {
  other_keys = some (with_other (or_nil existing.other_keys) (record known { last_seen = now }));
}

differing :
    ContactKey
    → PublicKeyInfo
    → Source
    → Option Text
    → RotationEvidence
    → Option OtherKey
    → Text
    → ContactKey
differing existing key source name rotation none now =
    replaced existing key source name rotation none now
differing existing key source name rotation (some known) now =
    if known.set_aside
    then noted existing known now
    else replaced existing key source name rotation (some known) now

-- The entry under `key.email` after the call.
unfoldable pub upserted :
    Option ContactKey → PublicKeyInfo → Source → Option Text → RotationEvidence → Text → ContactKey
unfolding refreshed differing replaced noted
upserted none key source name rotation now = refreshed none key source name now
upserted (some existing) key source name rotation now =
    if text_eq existing.fingerprint key.fingerprint
    then refreshed (some existing) key source name now
    else differing existing key source name rotation
        (find? (has_fingerprint key.fingerprint) (or_nil existing.other_keys)) now

unfoldable pub upsert_key :
    Keyring → PublicKeyInfo → Source → Option Text → RotationEvidence → Text → Keyring
upsert_key keyring key source name rotation now =
    insert key.email (upserted (lookup key.email keyring) key source name rotation now) keyring

unfoldable pub remove_key : Keyring → Text → Keyring
remove_key keyring email = remove email keyring

unfoldable pub find_key : Locale → Keyring → Text → Option ContactKey
find_key loc keyring email = lookup (canonical loc email) keyring

-- Every other key is set aside.
abbrev pub all_aside : List OtherKey → List OtherKey
all_aside = map {A = OtherKey} (λ k. record k { set_aside = true })

-- others.filter((k) => k !== chosen), for the object that `find` returned
abbrev pub drop_first : Text → List OtherKey → List OtherKey
drop_first f [] = []
drop_first f (k ∷ ks) =
    let rest = drop_first f ks in if text_eq k.fingerprint f then ks else k ∷ rest

-- The chosen key is the one in use.
unfoldable pub confirmed : ContactKey → Text → ContactKey
confirmed existing at = record existing {
  trust = verified;
  verified_at = some at;
  other_keys = some (all_aside (or_nil existing.other_keys));
}

-- The chosen key is one of the others.
unfoldable pub switched : ContactKey → OtherKey → Text → ContactKey
unfolding with_other as_other
switched existing chosen at = record existing {
  fingerprint = chosen.fingerprint;
  armored = chosen.armored;
  user_id = chosen.user_id;
  source = chosen.source;
  first_seen = chosen.first_seen;
  last_seen = chosen.last_seen;
  trust = verified;
  verified_at = some at;
  changed_at = some at;
  previous_fingerprint = some existing.fingerprint;
  other_keys = some (
      all_aside (
        with_other (drop_first chosen.fingerprint (or_nil existing.other_keys))
          (as_other existing)));
}

abbrev pub switch_to : Keyring → ContactKey → Option OtherKey → Text → Option Keyring
switch_to keyring existing none at = none
switch_to keyring existing (some chosen) at =
    some (insert existing.email (switched existing chosen at) keyring)

abbrev pub choose_from : Keyring → Option ContactKey → Text → Text → Option Keyring
choose_from keyring none f at = none
choose_from keyring (some existing) f at =
    if text_eq existing.fingerprint f
    then some (insert existing.email (confirmed existing at) keyring)
    else switch_to keyring existing (find? (has_fingerprint f) (or_nil existing.other_keys)) at

unfoldable pub choose_key : Locale → Keyring → Text → Text → Text → Option Keyring
choose_key loc keyring email f at = choose_from keyring (find_key loc keyring email) f at
