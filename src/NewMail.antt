-- ===== src/NewMail.antt =====
-- Which rows of a sync are new mail (app/src/notifications/newMail.ts). Times are milliseconds since 1970;
-- reading a date, and the test of a sealed subject (hasSealedSubject of app/src/core/mime.ts), are given.
pub mod Announcing
mod Tests
use crypt_mail.Prelude.{
  ℕ, zero, suc, ◌+◌, ◌-◌, ◌*◌, Bool, true, false, ◌&&◌, ◌||◌, not, Option, none, some, List, [],
  ◌∷◌, ◌++◌, map, ltb, leb, if◌then◌else◌, length, filter, any, Text, codes, text_eq, has_text,
  sort_by, Locale, canonical,
}
use crypt_mail.Prelude.Filed.{unique}
use crypt_mail.Mail.{MailSummary}

pub data NotifyScope : Type 0 where
  primary every : NotifyScope

pub record NotifyLedger : Type 0 where
  pub since : Option Text
  pub seen : List Text
  pub pending : List Text

abbrev pub empty_ledger : NotifyLedger
empty_ledger = record { since = none; seen = []; pending = [] }

abbrev pub seen_cap : ℕ
seen_cap = 500

abbrev pub max_age_ms : ℕ
max_age_ms = 2 * 24 * 60 * 60 * 1000

abbrev pub since_slack_ms : ℕ
since_slack_ms = 10 * 60 * 1000

unfoldable pub other_tabs : List Text
other_tabs =
    codes "CATEGORY_PROMOTIONS"
    ∷ codes "CATEGORY_SOCIAL"
    ∷ codes "CATEGORY_UPDATES"
    ∷ codes "CATEGORY_FORUMS"
    ∷ []

pub record ObserveOptions : Type 0 where
  pub self : Text
  pub scope : NotifyScope
  pub now_ms : ℕ
  pub now_iso : Text

pub record Observation : Type 0 where
  pub ledger : NotifyLedger
  pub fresh : List MailSummary
  pub pending : List MailSummary

abbrev pub row_ids : List MailSummary → List Text
row_ids = map {A = MailSummary} (λ r. r.id)

-- xs.slice(n)
abbrev pub drop_ids : ℕ → List Text → List Text
drop_ids zero ids = ids
drop_ids (suc n) [] = []
drop_ids (suc n) (id ∷ ids) = drop_ids n ids

unfoldable pub cap_seen : List Text → List Text
cap_seen ids =
    if ltb seen_cap (length (unique ids))
    then drop_ids (length (unique ids) - seen_cap) (unique ids)
    else unique ids

abbrev is_primary : NotifyScope → Bool
is_primary primary = true
is_primary every = false

abbrev labels_or_nil : Option (List Text) → List Text
labels_or_nil none = []
labels_or_nil (some labels) = labels

-- new Map(rows.map((r) => [r.id, r])).get(id): the last row of the id
abbrev pub or_row : Option MailSummary → Option MailSummary → Option MailSummary
or_row none other = other
or_row (some row) other = some row

unfoldable pub row_of : Text → List MailSummary → Option MailSummary
row_of id [] = none
row_of id (row ∷ rows) =
    let rest = row_of id rows in or_row rest (if text_eq row.id id then some row else none)

abbrev is_row : Option MailSummary → Bool
is_row none = false
is_row (some row) = true

abbrev cons_row : Option MailSummary → List MailSummary → List MailSummary
cons_row none rows = rows
cons_row (some row) rows = row ∷ rows

abbrev rows_of : List MailSummary → List Text → List MailSummary
rows_of rows [] = []
rows_of rows (id ∷ ids) = cons_row (row_of id rows) (rows_of rows ids)

module _ (loc : Locale) (parse_date : Text → Option ℕ) (is_sealed_subject : Text → Bool) where
  unfoldable pub provider_filed_as_junk : Option (List Text) → Bool
  provider_filed_as_junk labels =
      any (λ l. has_text (loc.upper l) (codes "SPAM" ∷ codes "JUNK" ∷ [])) (labels_or_nil labels)

  abbrev dated_within : Option ℕ → Option ℕ → ℕ → Bool
  dated_within none since now = false
  dated_within (some at) none now = false
  dated_within (some at) (some since) now =
      leb now (at + max_age_ms) && leb since (at + since_slack_ms)

  unfoldable pub is_notifiable : Text → ObserveOptions → MailSummary → Bool
  is_notifiable since options row =
      let encrypted = is_sealed_subject row.subject in
      row.unread
      && not (text_eq (canonical loc row.from.address) (canonical loc options.self))
      && not (not encrypted && provider_filed_as_junk row.labels)
      && not (
          not encrypted
          && is_primary options.scope
          && any (λ l. has_text l other_tabs) (labels_or_nil row.labels))
      && dated_within (parse_date row.date) (parse_date since) options.now_ms

  abbrev pub newly_seen : NotifyLedger → List MailSummary → List Text
  newly_seen ledger rows = filter (λ id. not (has_text id ledger.seen)) (row_ids rows)

  abbrev unread_rows : List MailSummary → List MailSummary
  unread_rows rows = filter (λ (r : MailSummary). r.unread) rows

  abbrev pub fresh_rows : Text → NotifyLedger → List MailSummary → ObserveOptions → List MailSummary
  fresh_rows since ledger rows options =
      filter
        (λ (row : MailSummary).
          not (has_text row.id ledger.seen) && is_notifiable since options row)
        rows

  abbrev pub pending_ids : Text → NotifyLedger → List MailSummary → ObserveOptions → List Text
  pending_ids since ledger rows options =
      filter (λ id. is_row (row_of id (unread_rows rows)))
        (unique (ledger.pending ++ row_ids (fresh_rows since ledger rows options)))

  -- The first sync only primes the ledger.
  abbrev pub prime : List MailSummary → ObserveOptions → Observation
  prime rows options = record {
    ledger = record { since = some options.now_iso; seen = cap_seen (row_ids rows); pending = [] };
    fresh = [];
    pending = [];
  }

  abbrev pub observe_since :
      Option Text → NotifyLedger → List MailSummary → ObserveOptions → Observation
  observe_since none ledger rows options = prime rows options
  observe_since (some []) ledger rows options = prime rows options
  observe_since (some (c ∷ since)) ledger rows options = record {
    ledger = record {
      since = some (c ∷ since);
      seen = cap_seen (ledger.seen ++ newly_seen ledger rows);
      pending = pending_ids (c ∷ since) ledger rows options;
    };
    fresh = fresh_rows (c ∷ since) ledger rows options;
    pending =
        sort_by (λ (a : MailSummary) (b : MailSummary). loc.le b.date a.date)
          (rows_of (unread_rows rows) (pending_ids (c ∷ since) ledger rows options));
  }

  unfoldable pub observe : NotifyLedger → List MailSummary → ObserveOptions → Observation
  observe ledger rows options = observe_since ledger.since ledger rows options

unfoldable pub clear_pending : NotifyLedger → NotifyLedger
clear_pending ledger = record ledger { pending = [] }

abbrev same_ids : List Text → List Text → Bool
same_ids [] [] = true
same_ids (a ∷ ids) (b ∷ others) = text_eq a b && same_ids ids others
same_ids _ _ = false

abbrev same_since : Option Text → Option Text → Bool
same_since none none = true
same_since (some a) (some b) = text_eq a b
same_since _ _ = false

unfoldable pub ledger_changed : NotifyLedger → NotifyLedger → Bool
ledger_changed a b =
    not (same_since a.since b.since)
    || not (same_ids a.seen b.seen)
    || not (same_ids a.pending b.pending)
