-- ===== src/Sending/Parts.antt =====
-- The pieces of a delivery (app/src/state/send.ts, deliver): what it comes back with, what it reads of the
-- recipients, and the handing over of a message.
use crypt_mail.Prelude.{
  ℕ, Bool, true, false, ◌&&◌, Option, none, some, List, [], ◌∷◌, ◌++◌, map, if◌then◌else◌, Text,
  codes,
}
use crypt_mail.Attachment.{Attachment}
use crypt_mail.Keyring.{ContactKey}
use crypt_mail.Recipients.{Identity, RecipientState, Status, ok, missing}
use crypt_mail.Outbox.{Held, awaiting_key, upsert_scheduled}
use crypt_mail.Sending.Types.{SendInput, BuildRequest, Rejection, World, SendState}

-- What can be thrown: the refusals of this file, and what a service threw.
pub data Refusal : Type 0 where
  not_connected retired_hold no_recipient not_sealed_qkd not_sealed_pgp disabled no_armor : Refusal
  key_changed : List Text → Refusal
  core_failed archive_failed : Text → Refusal
  rejected : Rejection → Refusal

pub data Outcome : Type 0 where
  sent : Outcome
  queued : List Text → Outcome
  refused : Refusal → Outcome

pub record Result : Type 0 where
  pub outcome : Outcome
  pub state : SendState

abbrev pub give : Outcome → SendState → Result
give outcome state = record { outcome = outcome; state = state }

abbrev pub level_or_default : Option ℕ → ℕ
level_or_default none = 1
level_or_default (some level) = level

abbrev pub is_status_changed : RecipientState → Bool
is_status_changed recipient = is_changed recipient.status
  where
    is_changed : Status → Bool
    is_changed Status.changed = true
    is_changed _ = false

abbrev pub is_status_missing : RecipientState → Bool
is_status_missing recipient = is_missing recipient.status
  where
    is_missing : Status → Bool
    is_missing missing = true
    is_missing _ = false

abbrev pub emails_of : List RecipientState → List Text
emails_of = map {A = RecipientState} (λ r. r.email)

abbrev pub cons_armored : Option ContactKey → Option (List Text) → Option (List Text)
cons_armored (some key) (some rest) = some (key.armored ∷ rest)
cons_armored _ _ = none

-- recipients.map((r) => r.key!.armored), which throws where a key is absent.
unfoldable pub armored_keys : List RecipientState → Option (List Text)
armored_keys [] = some []
armored_keys (r ∷ recipients) = cons_armored r.key (armored_keys recipients)

-- (r.status === 'ok' || r.status === 'verified') && r.key
abbrev pub can_wrap : RecipientState → Bool
can_wrap recipient = is_good recipient.status && is_held recipient.key
  where
    is_good : Status → Bool
    is_good ok = true
    is_good Status.verified = true
    is_good _ = false

    is_held : Option ContactKey → Bool
    is_held none = false
    is_held (some key) = true

abbrev pub request_for : Text → Identity → SendInput → List Text → ℕ → BuildRequest
request_for sender me input recipient_keys level = record {
  from = sender;
  to = input.to;
  subject = input.subject;
  body = input.body;
  html = input.html;
  recipient_keys = recipient_keys;
  autocrypt_key = me.public_key_armored;
  in_reply_to = input.in_reply_to;
  references = input.references;
  attachments = input.attachments;
  level = level;
}

abbrev pub files_or_nil : Option (List Attachment) → List Attachment
files_or_nil none = []
files_or_nil (some files) = files

abbrev pub id_or : Option Text → Text → Text
id_or none new_id = new_id
id_or (some id) new_id = id

-- The message as the outbox holds it, whole.
unfoldable pub held_for : World → SendInput → List Text → Held
held_for world input pending = record {
  id = id_or input.id world.new_id;
  to = input.to;
  subject = input.subject;
  body = input.body;
  html = input.html;
  send_at = world.iso_of world.now_ms;
  in_reply_to = input.in_reply_to;
  references = input.references;
  attachments = input.attachments;
  level = input.level;
  reason = some awaiting_key;
  pending = some pending;
}

-- scheduler.hold
unfoldable pub hold_back : Held → SendState → SendState
hold_back item state = record state {
  scheduled = upsert_scheduled state.scheduled item;
  saved_outbox = upsert_scheduled state.scheduled item;
}

abbrev pub after_handing : Option Rejection → SendState → Result
after_handing none state = give sent state
after_handing (some rejection) state = give (refused (rejected rejection)) state

-- await mail.current.send(rfc822)
unfoldable pub hand_over : World → Text → SendState → Result
hand_over world message state =
    after_handing (world.accept state.handed message)
      (record state { handed = state.handed ++ message ∷ [] })

-- Both modes allow the send; only the reason differs.
pub record SendGate : Type 0 where
  pub allowed : Bool
  pub reason : Option Text

unfoldable pub can_send_encrypted : World → SendGate
can_send_encrypted world =
    if world.is_real then record { allowed = true; reason = none } else record {
      allowed = true;
      reason = some (codes "Demo mode — the message is encoded, not encrypted.");
    }
