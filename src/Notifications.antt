-- ===== src/Notifications.antt =====
-- What a notification may say and what a push may hold (app/src/notifications/policy.ts).
pub mod Privacy
pub mod Payload
mod Tests
use crypt_mail.Prelude.{
  ℕ, ◌-◌, Bool, true, false, ◌&&◌, ◌||◌, not, Option, none, some, List, [], ◌∷◌, ◌++◌, map, number,
  text, object, ltb, leb, ◌==◌, if◌then◌else◌, length, take, filter, all, Text, codes, text_eq,
  text_leb, is_space, trim, join, or_text, decimal, Dict, lookup, keys, sort_by, Value,
}
use crypt_mail.Prelude.Filed.{unique}

pub data NotificationPreview : Type 0 where
  off private sender full : NotificationPreview

pub record NewMail : Type 0 where
  pub from : Text
  pub from_name : Option Text
  pub subject : Option Text
  pub snippet : Option Text
  pub encrypted : Bool
  pub decrypted : Bool

pub record NotificationText : Type 0 where
  pub title : Text
  pub body : Text

-- No notification, or one with what the lock screen shows and what the unlocked device shows. Its
-- visibility is always private.
pub data NotificationPlan : Type 0 where
  no_post : NotificationPlan
  post : NotificationText → NotificationText → NotificationPlan

abbrev pub generic_title : Text
generic_title = codes "CryptMail"

abbrev pub max_preview_chars : ℕ
max_preview_chars = 120

unfoldable pub generic_text : ℕ → NotificationText
generic_text count = record {
  title = generic_title;
  body = if count == 1 then codes "New message" else decimal count ++ codes " new messages";
}

abbrev pub is_readable : NewMail → Bool
is_readable message = not message.encrypted || message.decrypted

-- replace(/\s+/g, ' '); the flag says that a space was just written.
collapse : Bool → Text → Text
unfolding is_space
collapse after [] = []
collapse after (c ∷ t) =
    let spaced = collapse true t in
    let plain = c ∷ collapse false t in
    if is_space c then (if after then spaced else 32 ∷ spaced) else plain

abbrev pub given : Option Text → Text
given none = []
given (some t) = t

-- 8230 is the ellipsis.
abbrev pub cut : Text → Text
cut line =
    if ltb max_preview_chars (length line)
    then take (max_preview_chars - 1) line ++ 8230 ∷ []
    else line

unfoldable pub clip : Option Text → Text
unfolding collapse trim
clip t = cut (trim (collapse false (given t)))

abbrev pub trimmed : Option Text → Option Text
trimmed none = none
trimmed (some t) = some (trim t)

unfoldable pub sender_of : NewMail → Text
unfolding clip trim
sender_of message = or_text (clip (trimmed message.from_name)) message.from

abbrev pub and_more : ℕ → Text
and_more hidden = if ltb 0 hidden then codes " and " ++ (decimal hidden ++ codes " more") else []

-- The notification for one readable message.
unfoldable pub one_content : NotificationPreview → NewMail → NotificationText
one_content full message = record {
  title = sender_of message;
  body = or_text (clip message.subject) (or_text (clip message.snippet) (codes "New message"));
}
one_content _ message = record { title = sender_of message; body = codes "New message" }

unfoldable pub several_content : ℕ → List NewMail → NotificationText
several_content count readable = record {
  title = decimal count ++ codes " new messages";
  body = clip (
      some (
        join (codes ", ") (unique (map sender_of readable)) ++ and_more (count - length readable)));
}

abbrev pub content_for : NotificationPreview → ℕ → List NewMail → NotificationText
content_for preview count [] = generic_text count
content_for preview count (message ∷ readable) =
    if count == 1 then one_content preview message else several_content count (message ∷ readable)

abbrev pub reveals : NotificationPreview → Bool
reveals off = false
reveals private = false
reveals sender = true
reveals full = true

abbrev pub is_empty_batch : List NewMail → Bool
is_empty_batch [] = true
is_empty_batch (message ∷ mail) = false

abbrev pub is_off : NotificationPreview → Bool
is_off off = true
is_off _ = false

unfoldable pub plan_for : List NewMail → NotificationPreview → Bool → NotificationPlan
plan_for mail preview locked =
    let lock_screen = generic_text (length mail) in
    if is_off preview || is_empty_batch mail
    then no_post
    else if not (reveals preview) || locked
    then post lock_screen lock_screen
    else post lock_screen (content_for preview (length mail) (filter is_readable mail))

-- A push: an object's own keys with their values.
abbrev pub Payload : Type 0
Payload = Dict (Value (Unit {0}))

abbrev pub payload_keys : List Text
payload_keys = codes "a" ∷ codes "t" ∷ codes "v" ∷ []

abbrev pub same_texts : List Text → List Text → Bool
same_texts [] [] = true
same_texts (s ∷ ss) (t ∷ ts) = text_eq s t && same_texts ss ts
same_texts _ _ = false

-- /^[A-Za-z0-9_-]{22,64}$/
abbrev pub is_token_char : ℕ → Bool
is_token_char c =
    (leb 65 c && leb c 90)
    || (leb 97 c && leb c 122)
    || (leb 48 c && leb c 57)
    || c == 95
    || c == 45

unfoldable pub is_account_token : Text → Bool
is_account_token a = leb 22 (length a) && (leb (length a) 64 && all is_token_char a)

abbrev pub is_version : Option (Value (Unit {0})) → Bool
is_version (some (number n)) = n == 1
is_version (some (text t)) = text_eq t (codes "1")
is_version _ = false

abbrev pub is_sync : Option (Value (Unit {0})) → Bool
is_sync (some (text t)) = text_eq t (codes "sync")
is_sync _ = false

abbrev pub account_token : Option (Value (Unit {0})) → Option Text
account_token (some (text a)) = if is_account_token a then some a else none
account_token _ = none

-- The accepted payload is given by its account token, the only part that varies.
unfoldable pub parse_relay_payload : Value Payload → Option Text
parse_relay_payload (object payload) =
    if not (same_texts (sort_by text_leb (keys payload)) payload_keys)
    then none
    else if not (is_version (lookup (codes "v") payload))
    then none
    else if not (is_sync (lookup (codes "t") payload))
    then none
    else account_token (lookup (codes "a") payload)
parse_relay_payload _ = none
