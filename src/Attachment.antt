-- ===== src/Attachment.antt =====
-- Attachments (app/src/mail/attachment.ts): the limits of a message, and what a draft can store. Sizes
-- are whole bytes.
pub mod Limits
mod Tests
use crypt_mail.Prelude.{
  ℕ, ◌+◌, ◌-◌, ◌*◌, Bool, true, false, not, Option, none, some, List, [], ◌∷◌, ◌++◌, ltb, leb,
  if◌then◌else◌, filter, Text, text_eq,
}

abbrev pub max_attachment_bytes : ℕ
max_attachment_bytes = 5 * 1024 * 1024

abbrev pub max_total_attachment_bytes : ℕ
max_total_attachment_bytes = 5 * 1024 * 1024

abbrev pub max_stored_attachment_bytes : ℕ
max_stored_attachment_bytes = 1024 * 1024

pub record Attachment : Type 0 where
  pub id : Text
  pub name : Text
  pub mime_type : Text
  pub size : ℕ
  pub content : Text
  pub is_inline : Bool
  pub content_id : Option Text

unfoldable pub total_bytes : List Attachment → ℕ
total_bytes [] = 0
total_bytes (a ∷ attachments) = a.size + total_bytes attachments

-- The two refusals; the words are the interface's.
pub data Refusal : Type 0 where
  file_too_large message_too_large : Refusal

unfoldable pub attachment_refusal : ℕ → List Attachment → Option Refusal
attachment_refusal size existing =
    if ltb max_attachment_bytes size
    then some file_too_large
    else if ltb max_total_attachment_bytes (total_bytes existing + size)
    then some message_too_large
    else none

-- What is stored and the names of the rest.
pub record Split : Type 0 where
  pub stored : List Attachment
  pub omitted : List Text

abbrev keep : Attachment → Split → Split
keep a rest = record { stored = a ∷ rest.stored; omitted = rest.omitted }

abbrev leave : Attachment → Split → Split
leave a rest = record { stored = rest.stored; omitted = a.name ∷ rest.omitted }

-- The loop, with the budget that is left.
unfoldable pub split_within : ℕ → List Attachment → Split
split_within budget [] = record { stored = []; omitted = [] }
split_within budget (a ∷ list) = elim (leb a.size budget) [
  | true ↦ keep a (split_within (budget - a.size) list)
  | false ↦ leave a (split_within budget list)
]

unfoldable pub split_for_storage : List Attachment → Split
unfolding split_within
split_for_storage list = split_within max_stored_attachment_bytes list

abbrev pub has_id : Text → Attachment → Bool
has_id id a = text_eq a.id id

unfoldable pub add_attachment : List Attachment → Attachment → List Attachment
add_attachment list next = filter (λ a. not (has_id next.id a)) list ++ next ∷ []

unfoldable pub remove_attachment : List Attachment → Text → List Attachment
remove_attachment list id = filter (λ a. not (has_id id a)) list
