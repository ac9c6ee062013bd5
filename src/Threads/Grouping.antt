-- ===== src/Threads/Grouping.antt =====
-- Grouping is by thread id alone, and loses nothing.
use crypt_mail.Prelude.{
  ◌≡◌, Bool, Option, none, some, List, [], length, filter, Text, text_eq, Dict, lookup, sort_by,
  Locale,
}
use crypt_mail.Mail.{MailSummary}
use crypt_mail.Threads.{Thread, thread_key, date_le, last?}

abbrev messages_in : Option (List MailSummary) → List MailSummary
messages_in none = []
messages_in (some ms) = ms

abbrev bucket : Text → Dict (List MailSummary) → List MailSummary
bucket k buckets = messages_in (lookup k buckets)

-- The messages of a thread, told apart from the rest by the thread id alone.
abbrev pub in_thread : Text → MailSummary → Bool
in_thread k m = text_eq (thread_key m) k

-- What a conversation is: all the mail of one thread id and nothing else, oldest first.
pub record IsConversation (loc : Locale) (messages : List MailSummary) (t : Thread) : Type 0 where
  pub whole : t.messages ≡ sort_by (date_le loc) (filter (in_thread t.id) messages)
  pub newest : t.latest ≡ last? t.messages
  pub counted : t.count ≡ length t.messages
