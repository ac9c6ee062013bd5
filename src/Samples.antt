-- ===== src/Samples.antt =====
-- Sample data of the tests: an ASCII locale, two correspondents' keys, and mail.
use crypt_mail.Prelude.{
  ℕ, ◌+◌, ◌-◌, ◌≡◌, refl, ◌≢◌, true, false, ◌&&◌, none, some, [], ◌∷◌, map, arith, leb,
  if◌then◌else◌, Text, codes, text_eq, text_eq_iff, text_leb, text_leb_trans, IsPreorder, Locale,
  IsCollation,
}
use crypt_mail.Keyring.{PublicKeyInfo, ContactKey, Keyring, seen, directory}
use crypt_mail.Recipients.{Identity}
use crypt_mail.Outbox.{Held, HoldReason, time, awaiting_key, ScheduledOutbox}
use crypt_mail.Mail.{MailSummary}

abbrev lower_unit : ℕ → ℕ
lower_unit c = if leb 65 c && leb c 90 then c + 32 else c

abbrev upper_unit : ℕ → ℕ
upper_unit c = if leb 97 c && leb c 122 then c - 32 else c

abbrev pub ascii : Locale
ascii = record { lower = map lower_unit; upper = map upper_unit; le = text_leb; base_le = text_leb }

text_leb_total : (s t : Text) → text_leb s t ≡ false → text_leb t s ≡ true
unfolding text_leb
text_leb_total [] t h = absurd (cc h)
text_leb_total (x ∷ s) [] h = refl
text_leb_total (x ∷ s) (y ∷ t) h = ground (arith, text_leb_total s t)

text_leb-IsPreorder : IsPreorder text_leb
text_leb-IsPreorder = record { total = text_leb_total; trans = text_leb_trans }

pub ascii-IsCollation : IsCollation ascii
ascii-IsCollation = record { order = text_leb-IsPreorder; base_order = text_leb-IsPreorder }

-- Texts that the test tells apart.
pub texts_apart : (s t : Text) → text_eq s t ≡ false → s ≢ t
texts_apart s t h e = ground (arith, text_eq_iff s t)

abbrev pub ann : Text
ann = codes "ann@x.org"

abbrev pub bob : Text
bob = codes "bob@x.org"

abbrev pub key_of : Text → Text → PublicKeyInfo
key_of email f = record { email = email; fingerprint = f; armored = codes "key"; user_id = none }

abbrev pub f1 : Text
f1 = codes "AAAA"

abbrev pub f2 : Text
f2 = codes "BBBB"

abbrev pub t1 : Text
t1 = codes "2026-01-01T00:00"

abbrev pub t2 : Text
t2 = codes "2026-01-02T00:00"

-- Ann's one key, just learned.
abbrev pub ann_contact : ContactKey
ann_contact = record {
  email = ann;
  fingerprint = f1;
  armored = codes "key";
  user_id = none;
  name = none;
  trust = seen;
  source = directory;
  first_seen = t1;
  last_seen = t1;
  verified_at = none;
  changed_at = none;
  previous_fingerprint = none;
  other_keys = none;
}

abbrev pub ann_ring : Keyring
ann_ring = (ann, ann_contact) ∷ []

abbrev pub me : Identity
me = record {
  email = codes "Me@x.org";
  fingerprint = f2;
  public_key_armored = codes "mine";
  created_at = t1;
}

abbrev pub held : Text → HoldReason → Text → Held
held id reason send_at = record {
  id = id;
  to = ann ∷ [];
  subject = codes "hi";
  body = codes "there";
  html = none;
  send_at = send_at;
  in_reply_to = none;
  references = none;
  attachments = none;
  level = none;
  reason = some reason;
  pending = none;
}

abbrev pub one_timed : ScheduledOutbox
one_timed = (codes "a", held (codes "a") time t1) ∷ []

abbrev pub one_waiting : ScheduledOutbox
one_waiting = (codes "b", held (codes "b") awaiting_key t1) ∷ []

abbrev pub mail : Text → Text → MailSummary
mail id subject = record {
  id = id;
  thread_id = none;
  from = record { address = ann; name = some (codes "Ann") };
  to = bob ∷ [];
  date = t1;
  subject = subject;
  snippet = codes "snippet";
  unread = true;
  starred = false;
  message_id = none;
  references = none;
  autocrypt = none;
  reply_to = none;
  authentication_results = none;
  list_unsubscribe = none;
  return_path = none;
  labels = some (codes "INBOX" ∷ []);
}
