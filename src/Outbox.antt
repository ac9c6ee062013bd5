-- ===== src/Outbox.antt =====
-- The outbox (app/src/outbox/outbox.ts): messages held until a time comes, or until every recipient
-- has a key. The order of the list is the locale's collation of the send times.
pub mod Release
mod Tests
use crypt_mail.Prelude.{
  ℕ, Bool, true, false, ◌&&◌, ◌||◌, Option, none, some, List, [], ◌∷◌, map, ◌==◌, filter, Text,
  text_leb, Dict, insert, remove, values, sort_by, Locale,
}
use crypt_mail.Keyring.{Keyring}
use crypt_mail.Attachment.{Attachment}
use crypt_mail.Recipients.{Identity, Status, RecipientState, resolve_recipient_states, missing}

-- The reasons written today, and the one that a removed level wrote.
pub data HoldReason : Type 0 where
  time awaiting_key awaiting_session : HoldReason

pub record Held : Type 0 where
  pub id : Text
  pub to : List Text
  pub subject : Text
  pub body : Text
  pub html : Option Text
  pub send_at : Text
  pub in_reply_to : Option Text
  pub references : Option (List Text)
  pub attachments : Option (List Attachment)
  pub level : Option ℕ
  pub reason : Option HoldReason
  pub pending : Option (List Text)

abbrev pub ScheduledOutbox : Type 0
ScheduledOutbox = Dict Held

unfoldable pub upsert_scheduled : ScheduledOutbox → Held → ScheduledOutbox
upsert_scheduled outbox item = insert item.id item outbox

unfoldable pub remove_scheduled : ScheduledOutbox → Text → ScheduledOutbox
remove_scheduled outbox id = remove id outbox

-- The comparator of `listScheduled`.
abbrev pub send_at_le : Locale → Held → Held → Bool
send_at_le loc a b = loc.le a.send_at b.send_at

unfoldable pub list_scheduled : Locale → ScheduledOutbox → List Held
list_scheduled loc outbox = sort_by (send_at_le loc) (values outbox)

-- `holdReason`: an entry written before there were reasons waits for its time.
abbrev pub reason_or_time : Option HoldReason → HoldReason
reason_or_time none = time
reason_or_time (some reason) = reason

unfoldable pub hold_reason : Held → HoldReason
hold_reason item = reason_or_time item.reason

abbrev pub is_time : HoldReason → Bool
is_time time = true
is_time _ = false

abbrev pub is_awaiting_key : HoldReason → Bool
is_awaiting_key awaiting_key = true
is_awaiting_key _ = false

abbrev pub is_awaiting_session : Option HoldReason → Bool
is_awaiting_session (some awaiting_session) = true
is_awaiting_session _ = false

abbrev pub is_retired_level : Option ℕ → Bool
is_retired_level none = false
is_retired_level (some level) = level == 3 || level == 4

-- Held at a level that was removed.
unfoldable pub is_retired_hold : Held → Bool
is_retired_hold item = is_awaiting_session item.reason || is_retired_level item.level

abbrev pub is_due : Text → Held → Bool
is_due now item = is_time (hold_reason item) && text_leb item.send_at now

unfoldable pub due_scheduled : Locale → ScheduledOutbox → Text → List Held
due_scheduled loc outbox now = filter (is_due now) (list_scheduled loc outbox)

abbrev pub is_pending : Status → Bool
is_pending missing = true
is_pending Status.changed = true
is_pending _ = false

unfoldable pub still_pending : Locale → Held → Keyring → Option Identity → List Text
still_pending loc item keyring identity =
    map (λ (r : RecipientState). r.email)
      (filter (λ (r : RecipientState). is_pending r.status)
        (resolve_recipient_states loc keyring identity item.to))

abbrev pub is_nil {ℓ} : {A : Type ℓ} → List A → Bool
is_nil [] = true
is_nil (x ∷ xs) = false

abbrev pub is_resolvable : Locale → Keyring → Option Identity → Held → Bool
is_resolvable loc keyring identity item =
    is_awaiting_key (hold_reason item) && is_nil (still_pending loc item keyring identity)

unfoldable pub resolvable_held : Locale → ScheduledOutbox → Keyring → Option Identity → List Held
resolvable_held loc outbox keyring identity =
    filter (is_resolvable loc keyring identity) (list_scheduled loc outbox)
