-- ===== src/Sending/Types.antt =====
-- The state that the send path reads and writes (app/src/state/types.ts), and the services it calls:
-- the cryptographic core, the mail provider, the archive, and the clock.
use crypt_mail.Prelude.{ℕ, Bool, true, false, Option, none, some, List, Text, Dict}
use crypt_mail.Attachment.{Attachment}
use crypt_mail.Keyring.{Keyring}
use crypt_mail.Recipients.{Identity}
use crypt_mail.Outbox.{ScheduledOutbox}

pub record SendInput : Type 0 where
  pub id : Option Text
  pub to : List Text
  pub subject : Text
  pub body : Text
  pub html : Option Text
  pub in_reply_to : Option Text
  pub references : Option (List Text)
  pub attachments : Option (List Attachment)
  pub level : Option ℕ

-- What `core.buildEncrypted` is asked for.
pub record BuildRequest : Type 0 where
  pub from : Text
  pub to : List Text
  pub subject : Text
  pub body : Text
  pub html : Option Text
  pub recipient_keys : List Text
  pub autocrypt_key : Text
  pub in_reply_to : Option Text
  pub references : Option (List Text)
  pub attachments : Option (List Attachment)
  pub level : ℕ

-- What `buildPlaintext` is asked for.
pub record PlainInput : Type 0 where
  pub from : Text
  pub to : List Text
  pub subject : Text
  pub body : Text
  pub html : Option Text
  pub autocrypt_key : Option Text
  pub in_reply_to : Option Text
  pub references : Option (List Text)
  pub attachments : Option (List Attachment)

pub data Built : Type 0 where
  built not_built : Text → Built

-- Why the provider refused: whether it asks for a new sign-in, and its words.
pub record Rejection : Type 0 where
  pub auth : Bool
  pub why : Text

abbrev pub is_accepted : Option Rejection → Bool
is_accepted none = true
is_accepted (some rejection) = false

-- What is kept of a message that opens once.
pub record Archived : Type 0 where
  pub message : Text
  pub subject : Text
  pub body : Text
  pub html : Option Text
  pub attachments : List Attachment
  pub security_level : ℕ
  pub sealed_to_key : Bool

-- The services outside this file, and the moment of the call.
pub record World : Type 0 where
  -- contacts.discover: the keyring after asking for the keys of these addresses
  pub discover : List Text → Keyring → Keyring
  -- core.buildEncrypted
  pub build_encrypted : BuildRequest → Built
  -- isPgpMime, isQkdMessage, buildPlaintext
  pub is_pgp_mime : Text → Bool
  pub is_qkd_message : Text → Bool
  pub build_plaintext : PlainInput → Text
  -- mail.current.send, after all that it was handed before
  pub accept : List Text → Text → Option Rejection
  -- archive: the reason why the message could not be kept
  pub archive_error : Text → Option Text
  -- Date.parse, toISOString, Date.now, newOutboxId
  pub parse_date : Text → Option ℕ
  pub iso_of : ℕ → Text
  pub now_ms : ℕ
  pub new_id : Text
  -- cryptoMode === 'real'
  pub is_real : Bool

pub record SendState : Type 0 where
  pub connected : Bool
  pub session : Option Text
  pub identity : Option Identity
  pub keyring : Keyring
  pub scheduled : ScheduledOutbox
  pub saved_outbox : ScheduledOutbox
  pub invites : Dict Text
  pub saved_invites : Dict Text
  pub archived : List Archived
  -- all that mail.current.send was ever handed, whether the provider took it or not
  pub handed : List Text
  pub refreshes : ℕ
