-- ===== src/Recipients/Blocking.antt =====
-- Rule 1: what the status of a recipient tells about the key that it resolves to.
use crypt_mail.Prelude.{
  ◌≡◌, refl, ◌≢◌, inl, inr, false, Option, none, some, Bool-cases, Text, text_eq, text_eq_iff,
  lookup, Locale, canonical,
}
use crypt_mail.Keyring.{
  Trust, Source, PublicKeyInfo, ContactKey, Keyring, upsert_key, find_key, seen, no_evidence,
}
use crypt_mail.Keyring.Upsert.{NotSetAside, upsert_key-IsBlocked}
use crypt_mail.Recipients.{
  Identity, Status, own_key, status_of, contact_state, is_own, resolve_recipient, ok, missing,
}

-- What a recipient's state promises: a key that may be used comes with the state, and is not one
-- whose fingerprint changed; a state that blocks says why.
abbrev pub IsJustified : Status → Option ContactKey → Type 0
IsJustified missing key = key ≡ none
IsJustified ok key = (c : ContactKey) × (key ≡ some c) × (c.trust ≡ seen)
IsJustified Status.verified key = (c : ContactKey) × (key ≡ some c) × (c.trust ≡ Trust.verified)
IsJustified Status.changed key = (c : ContactKey) × (key ≡ some c) × (c.trust ≡ Trust.changed)

status_of-IsJustified :
    (c : ContactKey) (t : Trust) → c.trust ≡ t → IsJustified (status_of t) (some c)
status_of-IsJustified c seen e = (c, refl, e)
status_of-IsJustified c Trust.verified e = (c, refl, e)
status_of-IsJustified c Trust.changed e = (c, refl, e)

contact_state-IsJustified :
    (email : Text) (entry : Option ContactKey)
    → IsJustified (contact_state email entry).status (contact_state email entry).key
unfolding contact_state
contact_state-IsJustified email none = refl
contact_state-IsJustified email (some c) = status_of-IsJustified c c.trust refl

-- Every recipient's status is justified by the key that it resolves to: `ok` and `verified` come
-- with a key that is `seen` or `verified`, `changed` with one whose fingerprint changed, and `missing`
-- with none.
pub resolve_recipient-IsJustified :
    (loc : Locale) (keyring : Keyring) (identity : Option Identity) (email : Text)
    → IsJustified
        (resolve_recipient loc keyring identity email).status
        (resolve_recipient loc keyring identity email).key
unfolding resolve_recipient
resolve_recipient-IsJustified loc keyring none email =
    contact_state-IsJustified email (find_key loc keyring email)
resolve_recipient-IsJustified loc keyring (some identity) email =
    elim (Bool-cases (text_eq (canonical loc email) (canonical loc identity.email))) [
      | inl own ↦ simp own (own_key loc identity, refl, unfold own_key in refl)
      | inr other ↦ simp other (contact_state-IsJustified email (find_key loc keyring email))
    ]

-- Our own address resolves to this device's key, `verified`, whatever the ring holds.
pub resolve_recipient-own :
    (loc : Locale) (keyring : Keyring) (identity : Identity) (email : Text)
    → canonical loc email ≡ canonical loc identity.email
    → resolve_recipient loc keyring (some identity) email
      ≡ record { email = email; key = some (own_key loc identity); status = Status.verified }
unfolding resolve_recipient
resolve_recipient-own loc keyring identity email e =
    simp ((text_eq_iff (canonical loc email) (canonical loc identity.email)).1 e)

-- The recipient's entry blocks.
contact_state-changed :
    (email : Text) (c : ContactKey)
    → c.trust ≡ Trust.changed
    → (contact_state email (some c)).status ≡ Status.changed
unfolding contact_state
contact_state-changed email c e = rw (e, status_of)

-- When a key arrives without proof under another fingerprint, not set aside by the user, for an
-- address that is not our own, every spelling of that address resolves to `changed`, whatever it
-- resolved to before.
pub upsert_key-changed :
    (loc : Locale) (ring : Keyring) (identity : Option Identity) (key : PublicKeyInfo)
    (source : Source) (name : Option Text) (now email : Text) (old : ContactKey)
    → lookup key.email ring ≡ some old
    → old.fingerprint ≢ key.fingerprint
    → NotSetAside key.fingerprint old
    → canonical loc email ≡ key.email
    → is_own loc identity email ≡ false
    → (resolve_recipient loc
        (upsert_key ring key source name no_evidence now)
        identity
        email).status
      ≡ Status.changed
unfolding resolve_recipient find_key
upsert_key-changed loc ring identity key source name now email old found n open_question spelt
      foreign =
    let (c, stored, blocked) =
      upsert_key-IsBlocked ring key source name now old found n open_question in
    simp (foreign, spelt, stored) (contact_state-changed email c blocked.distrusted)
