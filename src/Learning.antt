-- ===== src/Learning.antt =====
-- Learning keys (app/src/keys/autocrypt.ts, and discover, markVerified and importKey of
-- app/src/state/contacts.ts): from the Autocrypt header of mail, and from the key directory.
pub mod Marking
pub mod Header
pub mod Trusting
pub mod Unresolved
pub mod Reading
mod Tests
use crypt_mail.Prelude.{
  Bool, true, false, ◌&&◌, ◌||◌, not, Option, none, some, List, [], ◌∷◌, ◌++◌, map, if◌then◌else◌,
  filter, Text, text_eq, is_space, trim, includes, is_empty, has_text, Locale, canonical,
}
use crypt_mail.Prelude.Filed.{unique}
use crypt_mail.Mail.{MailSummary}
use crypt_mail.Keyring.{
  ContactKey, Keyring, PublicKeyInfo, upsert_key, find_key, autocrypt, directory, no_evidence,
}
use crypt_mail.Base64.Utf8.{decode_utf8_base64}
use crypt_mail.Discovery.{
  LookupEnd, found, nothing_published, lookup_failed, armor_begin, armor_key,
}
use crypt_mail.Learning.Header.{addr_in, keydata_in, is_base64_text}

-- The services, and the moment.
pub record Learner : Type 0 where
  -- core.importPublicKey; `none` is a throw
  pub import_public_key : Text → Option PublicKeyInfo
  -- directory.lookup
  pub look_up : Text → LookupEnd
  -- addressesInKey
  pub addresses_in_key : Text → List Text
  -- client.list(box, { from }) for the inbox and the archive, where there is a client; `none` is a throw
  pub searches : Text → List (Option (List MailSummary))
  pub now : Text

module _ (loc : Locale) (learner : Learner) where
  abbrev decoded_key : Text → Text → Option Text
  decoded_key decoded keydata =
      if includes decoded armor_begin
      then some decoded
      else if is_base64_text keydata
      then some (armor_key keydata)
      else none

  -- Decoding throws at no text, so the handler of an error is never entered.
  abbrev key_of_data : Text → Option Text
  key_of_data [] = none
  key_of_data (c ∷ keydata) = decoded_key (decode_utf8_base64 (c ∷ keydata)) (c ∷ keydata)

  abbrev strip_spaces : Option Text → Text
  strip_spaces none = []
  strip_spaces (some keydata) = filter (λ c. not (is_space c)) keydata

  -- Whether the header names another address than the sender's; an empty address names none.
  abbrev pub names_other : Option Text → Text → Bool
  names_other none from = false
  names_other (some addr) from =
      not (is_empty (canonical loc addr))
      && not (is_empty from)
      && not (text_eq (canonical loc addr) (canonical loc from))

  unfoldable pub autocrypt_key_from : Text → Text → Option Text
  autocrypt_key_from header from =
      let value = trim header in
      if is_empty value
      then none
      else if includes value armor_begin
      then some value
      else if names_other (addr_in true value) from
      then none
      else key_of_data (strip_spaces (keydata_in value))

  abbrev pub learn_from : Keyring → Option Text → Option PublicKeyInfo → Keyring
  learn_from keyring name none = keyring
  learn_from keyring name (some info) =
      upsert_key keyring info autocrypt name no_evidence learner.now

  abbrev pub harvest_armored : Keyring → Option Text → Option Text → Keyring
  harvest_armored keyring name none = keyring
  harvest_armored keyring name (some armored) =
      learn_from keyring name (learner.import_public_key armored)

  -- The key is filed under the address that the key itself names.
  unfoldable pub harvest_autocrypt : Keyring → Text → Option Text → Option Text → Keyring
  harvest_autocrypt keyring from none name = keyring
  harvest_autocrypt keyring from (some header) name =
      if is_empty header
      then keyring
      else harvest_armored keyring name (autocrypt_key_from header from)

  abbrev pub has_key : Keyring → Text → Bool
  has_key keyring email = is_given (find_key loc keyring email)
    where
      is_given : Option ContactKey → Bool
      is_given none = false
      is_given (some key) = true

-- The keyring, and whether a search failed.
pub record Harvest : Type 0 where
  pub keyring : Keyring
  pub failed : Bool

pub record Round : Type 0 where
  pub keyring : Keyring
  pub unresolved : List Text

module _ (loc : Locale) (learner : Learner) where
  abbrev pub harvested : Keyring → MailSummary → Keyring
  harvested keyring summary =
      harvest_autocrypt loc learner keyring summary.from.address summary.autocrypt summary.from.name

  abbrev pub header_empty : Option Text → Bool
  header_empty none = true
  header_empty (some header) = is_empty header

  -- The loop over one box's messages, up to the first that leaves a key for the address.
  unfoldable pub harvest_box : Text → List MailSummary → Keyring → Keyring
  harvest_box email [] keyring = keyring
  harvest_box email (summary ∷ messages) keyring =
      let skipped = harvest_box email messages keyring in
      let next = harvested keyring summary in
      let rest = harvest_box email messages next in
      if header_empty summary.autocrypt || not (text_eq (canonical loc summary.from.address) email)
      then skipped
      else if has_key loc learner next email
      then next
      else rest

  unfoldable pub harvest_boxes : Text → List (Option (List MailSummary)) → Keyring → Bool → Harvest
  harvest_boxes email [] keyring failed = record { keyring = keyring; failed = failed }
  harvest_boxes email (none ∷ boxes) keyring failed = harvest_boxes email boxes keyring true
  harvest_boxes email (some messages ∷ boxes) keyring failed =
      let next = harvest_box email messages keyring in
      let rest = harvest_boxes email boxes next failed in
      if has_key loc learner next email then record { keyring = next; failed = false } else rest

  unfoldable pub harvest_from_sender : Keyring → Text → Harvest
  harvest_from_sender keyring email = harvest_boxes email (learner.searches email) keyring false

  -- A key that the directory served is taken only where it claims the address that was asked about.
  abbrev pub claims : PublicKeyInfo → Text → Text → Bool
  claims info armored email =
      text_eq (canonical loc info.email) email || has_text email (learner.addresses_in_key armored)

  abbrev pub take_served : Text → Text → Option PublicKeyInfo → Keyring → List Text → Round
  take_served email armored none keyring unresolved = record {
    keyring = keyring;
    unresolved = unresolved ++ email ∷ [];
  }
  take_served email armored (some info) keyring unresolved =
      if claims info armored email
      then record {
        keyring =
            upsert_key keyring (record info { email = email }) directory none no_evidence
              learner.now;
        unresolved = unresolved;
      }
      else record { keyring = keyring; unresolved = unresolved }

  abbrev pub after_lookup : Text → LookupEnd → Harvest → List Text → Round
  after_lookup email (found armored source) mail unresolved =
      take_served email armored (learner.import_public_key armored) mail.keyring unresolved
  after_lookup email nothing_published mail unresolved = record {
    keyring = mail.keyring;
    unresolved = if mail.failed then unresolved ++ email ∷ [] else unresolved;
  }
  after_lookup email (lookup_failed code) mail unresolved = record {
    keyring = mail.keyring;
    unresolved = unresolved ++ email ∷ [];
  }

  unfoldable pub learn_one : Text → Round → Round
  learn_one email gathered =
      let mail = harvest_from_sender gathered.keyring email in
      if has_key loc learner mail.keyring email
      then record { keyring = mail.keyring; unresolved = gathered.unresolved }
      else after_lookup email (learner.look_up email) mail gathered.unresolved

  unfoldable pub learn_each : List Text → Round → Round
  learn_each [] gathered = gathered
  learn_each (email ∷ emails) gathered = learn_each emails (learn_one email gathered)

  abbrev is_self : Option Text → Text → Bool
  is_self none email = false
  is_self (some self) email = text_eq email (canonical loc self)

  -- The addresses to ask about, given our own.
  unfoldable pub unknown_of : Option Text → Keyring → List Text → List Text
  unknown_of self keyring emails =
      filter (λ e. not (is_self self e) && not (has_key loc learner keyring e))
        (filter (λ e. not (is_empty e)) (unique (map (canonical loc) emails)))

  unfoldable pub discover : Option Text → Keyring → List Text → Round
  discover self keyring emails =
      learn_each (unknown_of self keyring emails) (record { keyring = keyring; unresolved = [] })
