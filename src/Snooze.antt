-- ===== src/Snooze.antt =====
-- Snoozing (app/src/snooze/snooze.ts): hidden messages and the time they come back. The headings and
-- the presets, which read the calendar, stand outside.
pub mod Rows
use crypt_mail.Prelude.{
  Bool, false, Option, none, some, List, [], ◌∷◌, map, if◌then◌else◌, filter, Text, text_eq,
  text_leb, text_ltb, Dict, lookup, insert, remove, values, sort_by, Locale,
}
use crypt_mail.Mail.{MailSummary}

pub record SnoozedMessage : Type 0 where
  pub id : Text
  pub until : Text
  pub snoozed_at : Text
  pub summary : Option MailSummary

abbrev pub SnoozeMap : Type 0
SnoozeMap = Dict SnoozedMessage

unfoldable pub upsert_snooze : SnoozeMap → SnoozedMessage → SnoozeMap
upsert_snooze snoozes item = insert item.id item snoozes

unfoldable pub remove_snooze : SnoozeMap → Text → SnoozeMap
remove_snooze snoozes id = remove id snoozes

abbrev pub until_le : Locale → SnoozedMessage → SnoozedMessage → Bool
until_le loc a b = loc.le a.until b.until

unfoldable pub list_snoozed : Locale → SnoozeMap → List SnoozedMessage
list_snoozed loc snoozes = sort_by (until_le loc) (values snoozes)

unfoldable pub due_snoozed : Locale → SnoozeMap → Text → List SnoozedMessage
due_snoozed loc snoozes now = filter (λ item. text_leb item.until now) (list_snoozed loc snoozes)

abbrev is_pending : Option SnoozedMessage → Text → Bool
is_pending none now = false
is_pending (some entry) now = text_ltb now entry.until

unfoldable pub is_snoozed : SnoozeMap → Text → Text → Bool
is_snoozed snoozes id now = is_pending (lookup id snoozes) now

pub record SnoozedRow : Type 0 where
  pub entry : SnoozedMessage
  pub summary : Option MailSummary

-- new Map(messages.map((m) => [m.id, m])).get(id): the last message under the id.
unfoldable pub live_summary : List MailSummary → Text → Option MailSummary
live_summary [] id = none
live_summary (m ∷ messages) id = elim (live_summary messages id) [
  | some later ↦ some later
  | none ↦ if text_eq m.id id then some m else none
]

abbrev summary_or : Option MailSummary → Option MailSummary → Option MailSummary
summary_or none snapshot = snapshot
summary_or (some live) snapshot = some live

abbrev pub row_of : List MailSummary → SnoozedMessage → SnoozedRow
row_of messages entry = record {
  entry = entry;
  summary = summary_or (live_summary messages entry.id) entry.summary;
}

unfoldable pub snoozed_rows : Locale → SnoozeMap → List MailSummary → Text → List SnoozedRow
snoozed_rows loc snoozes messages now =
    map (row_of messages) (filter (λ entry. text_ltb now entry.until) (list_snoozed loc snoozes))
