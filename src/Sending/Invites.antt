-- ===== src/Sending/Invites.antt =====
-- Invites to people who have no key yet (app/src/store/inviteStore.ts, and sendInvites of
-- app/src/state/send.ts): one for each address in a week. Times are milliseconds since 1970.
use crypt_mail.Prelude.{
  ℕ, ◌+◌, ◌*◌, Bool, true, false, Option, none, some, List, [], ◌∷◌, ◌++◌, leb, if◌then◌else◌, Text,
  codes, Dict, lookup, insert, Locale, canonical,
}
use crypt_mail.Sending.Types.{World, SendState, PlainInput, is_accepted}

-- ISO time stamp of the last invite, under the lower-cased address.
abbrev pub InviteLog : Type 0
InviteLog = Dict Text

abbrev pub invite_window_ms : ℕ
invite_window_ms = 7 * 24 * 60 * 60 * 1000

module _ (loc : Locale) (world : World) where
  -- A time stamp that does not parse is `never`.
  abbrev pub is_over : Option ℕ → ℕ → Bool
  is_over none now = true
  is_over (some at) now = leb (at + invite_window_ms) now

  abbrev pub is_due_after : Option Text → ℕ → Bool
  is_due_after none now = true
  is_due_after (some []) now = true
  is_due_after (some (c ∷ last)) now = is_over (world.parse_date (c ∷ last)) now

  unfoldable pub should_invite : InviteLog → Text → ℕ → Bool
  should_invite log email now = is_due_after (lookup (canonical loc email) log) now

  unfoldable pub record_invite : InviteLog → Text → ℕ → InviteLog
  record_invite log email now = insert (canonical loc email) (world.iso_of now) log

  -- The words of an invite; they name the sender, and nothing of the message.
  unfoldable pub invite_subject : Text
  invite_subject = codes "An encrypted message is waiting for you"

  unfoldable pub invite_body : Text → Text
  invite_body sender =
      sender
      ++ codes
          " sent you a message with CryptMail, which encrypts mail so that only the two of you can read it.\n\nIt has not been delivered: encryption cannot be added after the fact, so the message is waiting until there is a key to encrypt it to. Install CryptMail and sign in with this address and it arrives on its own.\n\nThis email contains none of that message — not its subject, not a word of its contents. It carries the sender's public key, so your first reply can be encrypted too.\n\nhttps://github.com/neo999in/cryptmail"

  unfoldable pub invite_input : Text → Text → Text → PlainInput
  invite_input sender armored email = record {
    from = sender;
    to = email ∷ [];
    subject = invite_subject;
    body = invite_body sender;
    html = none;
    autocrypt_key = some armored;
    in_reply_to = none;
    references = none;
    attachments = none;
  }

  abbrev pub invite : Text → Text → Text → Text
  invite sender armored email = world.build_plaintext (invite_input sender armored email)

-- What the loop over the addresses gathers: the log, whether it changed, and what was handed over.
pub record InviteRun : Type 0 where
  pub log : InviteLog
  pub recorded : Bool
  pub handed : List Text

abbrev pub new_run : SendState → InviteRun
new_run state = record { log = state.invites; recorded = false; handed = state.handed }

module _ (loc : Locale) (world : World) (sender armored : Text) where
  -- An invite that cannot be sent is not recorded, and stops nothing.
  unfoldable pub invite_one : Text → InviteRun → InviteRun
  invite_one email gathered =
      let message = invite loc world sender armored email in
      let tried = gathered.handed ++ message ∷ [] in
      if is_accepted (world.accept gathered.handed message)
      then record {
        log = record_invite loc world gathered.log email world.now_ms;
        recorded = true;
        handed = tried;
      }
      else record gathered { handed = tried }

  unfoldable pub invite_each : List Text → InviteRun → InviteRun
  invite_each [] gathered = gathered
  invite_each (email ∷ emails) gathered = invite_each emails (
      if should_invite loc world gathered.log email world.now_ms
      then invite_one email gathered
      else gathered)

  -- The log is saved only where it changed.
  unfoldable pub store_run : InviteRun → SendState → SendState
  store_run gathered state =
      if gathered.recorded
      then record state {
        handed = gathered.handed;
        invites = gathered.log;
        saved_invites = gathered.log;
      }
      else record state { handed = gathered.handed }

  unfoldable pub send_invites : List Text → SendState → SendState
  send_invites emails state = store_run (invite_each emails (new_run state)) state
