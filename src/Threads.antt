-- ===== src/Threads.antt =====
-- Conversations (app/src/threads/threads.ts): mail grouped by the provider's thread id.
pub mod Grouping
mod Tests
use crypt_mail.Prelude.{
  ℕ, Bool, Option, none, some, List, [], ◌∷◌, ◌++◌, map, length, Text, Dict, lookup, insert,
  sort_by, Locale,
}
use crypt_mail.Mail.{MailSummary}

-- `latest` of an empty thread would be undefined; there is none.
pub record Thread : Type 0 where
  pub id : Text
  pub messages : List MailSummary
  pub latest : Option MailSummary
  pub count : ℕ

abbrev or_id : Option Text → Text → Text
or_id none id = id
or_id (some thread_id) id = thread_id

abbrev pub thread_key : MailSummary → Text
thread_key m = or_id m.thread_id m.id

-- The bucket after one more message.
abbrev pub pushed : Option (List MailSummary) → MailSummary → List MailSummary
pushed none m = m ∷ []
pushed (some bucket) m = bucket ++ m ∷ []

-- One step of the first loop: the message goes to the end of its bucket.
unfoldable pub add_to_bucket : MailSummary → Dict (List MailSummary) → Dict (List MailSummary)
add_to_bucket m buckets = insert (thread_key m) (pushed (lookup (thread_key m) buckets) m) buckets

unfoldable pub bucket_all : Dict (List MailSummary) → List MailSummary → Dict (List MailSummary)
bucket_all buckets [] = buckets
bucket_all buckets (m ∷ messages) = bucket_all (add_to_bucket m buckets) messages

abbrev pub date_le : Locale → MailSummary → MailSummary → Bool
date_le loc a b = loc.le a.date b.date

abbrev pub last? {ℓ} : {A : Type ℓ} → List A → Option A
last? [] = none
last? (x ∷ []) = some x
last? (x ∷ y ∷ xs) = last? (y ∷ xs)

-- One step of the second loop.
unfoldable pub thread_of : Locale → Text × List MailSummary → Thread
thread_of loc (id, messages) =
    let ordered = sort_by (date_le loc) messages in
    record { id = id; messages = ordered; latest = last? ordered; count = length ordered }

abbrev pub latest_date : Option MailSummary → Text
latest_date none = []
latest_date (some m) = m.date

abbrev pub newest_le : Locale → Thread → Thread → Bool
newest_le loc a b = loc.le (latest_date b.latest) (latest_date a.latest)

unfoldable pub group_into_threads : Locale → List MailSummary → List Thread
group_into_threads loc messages =
    sort_by (newest_le loc) (map (thread_of loc) (bucket_all [] messages))
