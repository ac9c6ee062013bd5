-- ===== src/Sending.antt =====
-- The send path (app/src/state/send.ts): an encrypted message is sealed and sent, or held, or refused.
-- An account is active, and storing the outbox and the log of invites succeeds; a call takes one moment.
pub mod Parts
pub mod Types
mod Tests
pub mod Invites
pub mod Inviting
pub mod Sealing
pub mod Holding
pub mod Ends
pub mod Lacking
pub mod Keeping
pub mod Outcomes
pub mod Learned
pub mod Protected
use crypt_mail.Prelude.{
  ◌+◌, Bool, true, false, not, Option, none, some, List, [], ◌∷◌, ◌++◌, ◌==◌, if◌then◌else◌, filter,
  any, all, Text, codes, keys, Locale,
}
use crypt_mail.Prelude.Filed.{unique}
use crypt_mail.Recipients.{Identity, RecipientState, resolve_recipient_states}
use crypt_mail.Outbox.{Held, is_retired_level, is_nil}
use crypt_mail.Scheduler.{Deliver, SendOutcome, waiting, failed}
use crypt_mail.Sending.Types.{SendInput, PlainInput, Built, built, not_built, World, SendState}
use crypt_mail.Sending.Invites.{send_invites}
use crypt_mail.Sending.Parts.{
  Refusal, not_connected, retired_hold, no_recipient, not_sealed_qkd, not_sealed_pgp, disabled,
  no_armor, key_changed, core_failed, archive_failed, rejected, Outcome, sent, queued, refused,
  Result, give, level_or_default, is_status_changed, is_status_missing, emails_of, armored_keys,
  can_wrap, request_for, files_or_nil, held_for, hold_back, hand_over, can_send_encrypted,
}

module _ (loc : Locale) (world : World) (sender : Text) (me : Identity) where
  abbrev pub recipients_of : SendInput → SendState → List RecipientState
  recipients_of input state =
      resolve_recipient_states loc (world.discover input.to state.keyring) (some me) input.to

  -- The state after contacts.discoverRecipients.
  abbrev pub looked_up : SendInput → SendState → SendState
  looked_up input state = record state { keyring = world.discover input.to state.keyring }

  abbrev pub kept : SendInput → Bool → Text → SendState → SendState
  kept input wrap message state = record state {
    archived =
        state.archived
        ++ record {
          message = message;
          subject = input.subject;
          body = input.body;
          html = input.html;
          attachments = files_or_nil input.attachments;
          security_level = 2;
          sealed_to_key = wrap;
        }
          ∷ [];
  }

  abbrev pub archive_then_send : SendInput → Bool → Text → Option Text → SendState → Result
  archive_then_send input wrap message none state =
      hand_over world message (kept input wrap message state)
  archive_then_send input wrap message (some why) state = give (refused (archive_failed why)) state

  -- A message that opens once is kept before it is sent.
  unfoldable pub send_qkd : SendInput → Bool → Built → SendState → Result
  send_qkd input wrap (not_built why) state = give (refused (core_failed why)) state
  send_qkd input wrap (built message) state =
      if (if wrap then not (world.is_pgp_mime message) else not (world.is_qkd_message message))
      then give (refused not_sealed_qkd) state
      else archive_then_send input wrap message (world.archive_error message) state

  abbrev pub build_qkd : SendInput → Bool → Option (List Text) → SendState → Result
  build_qkd input wrap none state = give (refused no_armor) state
  build_qkd input wrap (some keys) state =
      send_qkd input wrap (world.build_encrypted (request_for sender me input keys 2)) state

  abbrev pub with_own : Option (List Text) → Option (List Text)
  with_own none = none
  with_own (some keys) = some (unique (keys ++ me.public_key_armored ∷ []))

  abbrev pub wraps : SendInput → SendState → Bool
  wraps input state = all can_wrap (recipients_of input state)

  -- Level 2: sealed to the recipients' keys too where each of them is held and unchanged.
  unfoldable pub deliver_qkd : SendInput → SendState → Result
  deliver_qkd input state =
      if is_nil input.to
      then give (refused no_recipient) state
      else build_qkd input (wraps input state)
          (if wraps input state
            then with_own (armored_keys (recipients_of input state))
            else some [])
          (looked_up input state)

  unfoldable pub send_pgp : Built → SendState → Result
  send_pgp (not_built why) state = give (refused (core_failed why)) state
  send_pgp (built message) state =
      if world.is_pgp_mime message
      then hand_over world message state
      else give (refused not_sealed_pgp) state

  abbrev pub build_pgp : SendInput → Option (List Text) → SendState → Result
  build_pgp input none state = give (refused no_armor) state
  build_pgp input (some keys) state =
      send_pgp (world.build_encrypted (request_for sender me input keys 1)) state

  -- Held, and the people without a key are invited.
  unfoldable pub hold_and_invite : SendInput → List Text → SendState → Result
  hold_and_invite input pending state = give (queued pending) (
      send_invites loc world sender me.public_key_armored pending
        (hold_back (held_for world input pending) state))

  -- Level 1: what the states of the recipients, as they were found, decide.
  unfoldable pub deliver_to : SendInput → List RecipientState → SendState → Result
  deliver_to input recipients state =
      if any is_status_changed recipients
      then give (refused (key_changed (emails_of (filter is_status_changed recipients)))) state
      else if any is_status_missing recipients
      then hold_and_invite input (emails_of (filter is_status_missing recipients)) state
      else if (can_send_encrypted world).allowed
      then build_pgp input (with_own (armored_keys recipients)) state
      else give (refused disabled) state

  -- The levels that were removed are refused before anything is built or held.
  unfoldable pub deliver_as : SendInput → SendState → Result
  deliver_as input state =
      if is_retired_level input.level
      then give (refused retired_hold) state
      else if level_or_default input.level == 2
      then deliver_qkd input state
      else deliver_to input (recipients_of input state) (looked_up input state)

module _ (loc : Locale) (world : World) where
  abbrev pub deliver_for : Bool → Option Text → Option Identity → SendInput → SendState → Result
  deliver_for true (some sender) (some me) input state = deliver_as loc world sender me input state
  deliver_for _ _ _ input state = give (refused not_connected) state

  unfoldable pub deliver : SendInput → SendState → Result
  deliver input state = deliver_for state.connected state.session state.identity input state

  abbrev pub refreshed_after : Result → Result
  refreshed_after result = after_outcome result.outcome result.state
    where
      after_outcome : Outcome → SendState → Result
      after_outcome sent state = give sent (record state { refreshes = state.refreshes + 1 })
      after_outcome outcome state = give outcome state

  unfoldable pub send_encrypted : SendInput → SendState → Result
  send_encrypted input state = refreshed_after (deliver input state)

  abbrev pub own_armored : Option Identity → Option Text
  own_armored none = none
  own_armored (some me) = some me.public_key_armored

  abbrev pub plain_for : Text → Option Identity → SendInput → PlainInput
  plain_for sender identity input = record {
    from = sender;
    to = input.to;
    subject = input.subject;
    body = input.body;
    html = input.html;
    autocrypt_key = own_armored identity;
    in_reply_to = input.in_reply_to;
    references = input.references;
    attachments = input.attachments;
  }

  abbrev pub plain_as : Bool → Option Text → SendInput → SendState → Result
  plain_as true (some sender) input state =
      if is_nil input.to
      then give (refused no_recipient) state
      else refreshed_after
          (hand_over world (world.build_plaintext (plain_for sender state.identity input)) state)
  plain_as _ _ input state = give (refused not_connected) state

  -- The message in the clear, which only the user's own choice up front asks for.
  unfoldable pub send_plain : SendInput → SendState → Result
  send_plain input state = plain_as state.connected state.session input state

-- A held message, as the scheduler replays it.
unfoldable pub input_of : Held → SendInput
input_of item = record {
  id = some item.id;
  to = item.to;
  subject = item.subject;
  body = item.body;
  html = item.html;
  in_reply_to = item.in_reply_to;
  references = item.references;
  attachments = item.attachments;
  level = item.level;
}

abbrev pub auth_of : Refusal → Bool
auth_of (rejected rejection) = rejection.auth
auth_of _ = false

abbrev pub words_of : Refusal → Text
words_of (core_failed why) = why
words_of (archive_failed why) = why
words_of (rejected rejection) = rejection.why
words_of not_connected = codes "Not connected."
words_of no_recipient = codes "Add a recipient first."
words_of _ = []

-- What the scheduler reads of an outcome.
abbrev pub outcome_of : Outcome → SendOutcome
outcome_of Outcome.sent = SendOutcome.sent
outcome_of (queued pending) = waiting
outcome_of (refused refusal) = failed (auth_of refusal) (words_of refusal)

-- One delivery as the scheduler asks for it: from the given state of the send path, with the scheduler's
-- outbox in place of its own.
unfoldable pub deliver_held : Locale → World → SendState → Deliver
deliver_held loc world state item scheduled =
    let result = deliver loc world (input_of item) (record state { scheduled = scheduled }) in
    record { outcome = outcome_of result.outcome; scheduled = result.state.scheduled }
