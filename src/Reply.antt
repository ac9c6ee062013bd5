-- ===== src/Reply.antt =====
-- The draft of a reply or a forward (app/src/mail/reply.ts). The display name of a sender and the wording of
-- a date (lib/format.ts, toUTCString) are given.
pub mod Recipients
mod Tests
use crypt_mail.Prelude.{
  ℕ, zero, suc, Bool, true, false, ◌&&◌, ◌||◌, not, Option, none, some, List, [], ◌∷◌, ◌++◌, ◌==◌,
  if◌then◌else◌, length, filter, Text, codes, text_eq, is_space, trim_start, trim, join, is_empty,
  has_text, Locale, canonical,
}
use crypt_mail.Prelude.Filed.{unique}
use crypt_mail.Mail.{Sender}
use crypt_mail.Attachment.{Attachment}

pub data ReplyKind : Type 0 where
  reply reply_all forward : ReplyKind

pub record ReplySource : Type 0 where
  pub from : Sender
  pub to : List Text
  pub date : Text
  pub subject : Text
  pub body : Text
  pub message_id : Option Text
  pub references : Option Text
  pub attachments : Option (List Attachment)

pub record ReplyDraft : Type 0 where
  pub to : List Text
  pub subject : Text
  pub quoted_body : Text
  pub in_reply_to : Option Text
  pub references : Option (List Text)
  pub attachments : Option (List Attachment)

module _ (loc : Locale) where
  -- `dedupe`, whose set of seen addresses is its output.
  unfoldable pub dedupe_onto : List Text → List Text → List Text
  dedupe_onto out [] = out
  dedupe_onto out (raw ∷ emails) =
      let email = canonical loc raw in
      dedupe_onto (if is_empty email || has_text email out then out else out ++ email ∷ []) emails

  abbrev pub not_self : Text → Text → Bool
  not_self self email = not (text_eq email (canonical loc self))

  unfoldable pub reply_recipients : ReplySource → Text → List Text
  reply_recipients src self =
      let sender = canonical loc src.from.address in
      if not (is_empty sender) && not (text_eq sender (canonical loc self))
      then sender ∷ []
      else filter (not_self self) (dedupe_onto [] src.to)

  unfoldable pub reply_all_recipients : ReplySource → Text → List Text
  reply_all_recipients src self =
      filter (not_self self) (dedupe_onto [] (src.from.address ∷ src.to))

-- text.split(/\s+/).filter(Boolean): the word read so far, and the rest.
abbrev cons_word : Text → List Text → List Text
cons_word [] words = words
cons_word (c ∷ word) words = (c ∷ word) ∷ words

abbrev pub words_from : Text → Text → List Text
words_from word [] = cons_word word []
words_from word (c ∷ s) =
    let fresh = words_from [] s in
    let longer = words_from (word ++ c ∷ []) s in
    if is_space c then cons_word word fresh else longer

abbrev pub text_or_empty : Option Text → Text
text_or_empty none = []
text_or_empty (some t) = t

-- src.messageId ? [...prior, src.messageId] : prior
abbrev pub with_message_id : List Text → Option Text → List Text
with_message_id prior none = prior
with_message_id prior (some []) = prior
with_message_id prior (some (c ∷ id)) = prior ++ (c ∷ id) ∷ []

abbrev pub reference_ids : ReplySource → List Text
reference_ids src = with_message_id (words_from [] (text_or_empty src.references)) src.message_id

unfoldable pub build_references : ReplySource → List Text
build_references src = unique (reference_ids src)

-- a is `re:` in either case.
abbrev is_re : ℕ → ℕ → ℕ → Bool
is_re a b c = (a == 114 || a == 82) && (b == 101 || b == 69) && c == 58

-- subject.replace(/^\s*(re:\s*)+/i, ''), up to the spaces that `trim` then takes off.
unfoldable pub strip_re : Text → Text
strip_re [] = []
strip_re (a ∷ []) = if is_space a then [] else a ∷ []
strip_re (a ∷ b ∷ []) =
    let skipped = strip_re (b ∷ []) in if is_space a then skipped else a ∷ b ∷ []
strip_re (a ∷ b ∷ c ∷ s) =
    let skipped = strip_re (b ∷ c ∷ s) in
    let stripped = strip_re s in
    if is_space a then skipped else if is_re a b c then stripped else a ∷ b ∷ c ∷ s

abbrev prefixed : Text → Text → Text
prefixed mark [] = mark
prefixed mark (c ∷ base) = mark ++ (32 ∷ c ∷ base)

unfoldable pub reply_subject : Text → Text
reply_subject subject = prefixed (codes "Re:") (trim (strip_re subject))

-- `fw:` or `fwd:` in either case, and what follows it.
abbrev after_d : Text → Option Text
after_d [] = none
after_d (c ∷ []) = if c == 58 then some [] else none
after_d (c ∷ d ∷ s) =
    if c == 58 then some (d ∷ s) else if (c == 100 || c == 68) && d == 58 then some s else none

abbrev after_fw : Text → Option Text
after_fw (a ∷ b ∷ s) =
    let rest = after_d s in if (a == 102 || a == 70) && (b == 119 || b == 87) then rest else none
after_fw _ = none

-- The same for /^\s*(fwd?:\s*)+/i; each round shortens the text, so its length is fuel enough.
abbrev strip_fwd_from : ℕ → Text → Text
strip_fwd_from zero s = s
strip_fwd_from (suc fuel) s =
    strip_next (strip_fwd_from fuel) (trim_start s) (after_fw (trim_start s))
  where
    strip_next : (Text → Text) → Text → Option Text → Text
    strip_next again s none = s
    strip_next again s (some rest) = again rest

unfoldable pub forward_subject : Text → Text
forward_subject subject =
    prefixed (codes "Fwd:") (trim (strip_fwd_from (suc (length subject)) subject))

-- body.split('\n').map((line) => (line.length ? `> ${line}` : '>')).join('\n'), from the start of a line
-- or not.
unfoldable pub quote_lines_from : Bool → Text → Text
quote_lines_from true [] = codes ">"
quote_lines_from false [] = []
quote_lines_from at_start (c ∷ s) =
    let next = quote_lines_from true s in
    let within = quote_lines_from false s in
    if c == 10
    then (if at_start then codes ">" else []) ++ (10 ∷ next)
    else (if at_start then codes "> " else []) ++ (c ∷ within)

abbrev quote_lines : Text → Text
quote_lines body = quote_lines_from true body

abbrev pub some_unless_nil : List Text → Option (List Text)
some_unless_nil [] = none
some_unless_nil (x ∷ xs) = some (x ∷ xs)

abbrev files_unless_nil : Option (List Attachment) → Option (List Attachment)
files_unless_nil none = none
files_unless_nil (some []) = none
files_unless_nil (some (x ∷ xs)) = some (x ∷ xs)

module _ (display_name : Text → Option Text → Text) (quote_date : Text → Text) where
  abbrev who : ReplySource → Text
  who src =
      display_name src.from.address src.from.name ++ (codes " <" ++ (src.from.address ++ codes ">"))

  unfoldable pub quoted_reply_body : ReplySource → Text
  quoted_reply_body src =
      codes "\n\nOn "
      ++ (quote_date src.date
          ++ (codes ", " ++ (who src ++ (codes " wrote:\n" ++ quote_lines src.body))))

  unfoldable pub forwarded_body : ReplySource → Text
  forwarded_body src =
      codes "\n\n"
      ++ (join (codes "\n") (
            codes "---------- Forwarded message ---------"
            ∷ (codes "From: " ++ who src)
            ∷ (codes "Date: " ++ quote_date src.date)
            ∷ (codes "Subject: " ++ src.subject)
            ∷ (codes "To: " ++ join (codes ", ") src.to)
            ∷ [])
          ++ (codes "\n\n" ++ src.body))

  abbrev answer : ReplySource → List Text → ReplyDraft
  answer src to = record {
    to = to;
    subject = reply_subject src.subject;
    quoted_body = quoted_reply_body src;
    in_reply_to = src.message_id;
    references = some_unless_nil (build_references src);
    attachments = none;
  }

  unfoldable pub build_reply_draft : Locale → ReplyKind → ReplySource → Text → ReplyDraft
  build_reply_draft loc reply src self = answer src (reply_recipients loc src self)
  build_reply_draft loc reply_all src self = answer src (reply_all_recipients loc src self)
  build_reply_draft loc forward src self = record {
    to = [];
    subject = forward_subject src.subject;
    quoted_body = forwarded_body src;
    in_reply_to = none;
    references = none;
    attachments = files_unless_nil src.attachments;
  }
