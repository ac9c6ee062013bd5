-- ===== src/Drafts.antt =====
-- Compose drafts (app/src/drafts/drafts.ts).
pub mod Store
mod Tests
use crypt_mail.Prelude.{
  ◌*◌, Bool, true, false, ◌&&◌, Option, none, some, List, [], ◌∷◌, Text, trim, is_empty, Dict,
  insert, remove, values, sort_by, Locale,
}
use crypt_mail.Attachment.{Attachment}

pub record DraftFields : Type 0 where
  pub to : List Text
  pub subject : Text
  pub body : Text
  pub html : Option Text
  pub attachments : Option (List Attachment)
  pub attachments_omitted : Option (List Text)
  pub in_reply_to : Option Text
  pub references : Option (List Text)

pub record Draft : Type 0 where
  pub fields : DraftFields
  pub open fields use *
  pub id : Text
  pub updated_at : Text
  pub send_error : Option Text

abbrev pub Drafts : Type 0
Drafts = Dict Draft

abbrev is_nil {ℓ} : {A : Type ℓ} → List A → Bool
is_nil [] = true
is_nil (x ∷ xs) = false

abbrev no_files : Option (List Attachment) → Bool
no_files none = true
no_files (some files) = is_nil files

unfoldable pub is_draft_empty : DraftFields → Bool
is_draft_empty fields =
    is_nil fields.to
    && (is_empty (trim fields.subject)
        && (is_empty (trim fields.body) && no_files fields.attachments))

unfoldable pub upsert_draft : Drafts → Draft → Drafts
upsert_draft drafts draft = insert draft.id draft drafts

unfoldable pub remove_draft : Drafts → Text → Drafts
remove_draft drafts id = remove id drafts

-- The comparator: newest edited first.
abbrev pub newest_le : Locale → Draft → Draft → Bool
newest_le loc a b = loc.le b.updated_at a.updated_at

unfoldable pub list_drafts : Locale → Drafts → List Draft
list_drafts loc drafts = sort_by (newest_le loc) (values drafts)
