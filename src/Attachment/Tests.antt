-- ===== src/Attachment/Tests.antt =====
-- Attachments at concrete inputs.
use crypt_mail.Prelude.{some, ℕ, ◌≡◌, refl, false, none, List, [], ◌∷◌, Text, codes}
use crypt_mail.Attachment.{file_too_large, Attachment, attachment_refusal}

abbrev file : Text → ℕ → Attachment
file id size = record {
  id = id;
  name = id;
  mime_type = codes "text/plain";
  size = size;
  content = [];
  is_inline = false;
  content_id = none;
}

abbrev files : List Attachment
files = file (codes "a") 1000000 ∷ file (codes "b") 900000 ∷ file (codes "c") 40000 ∷ []

attachment_refusal_test : attachment_refusal 6000000 [] ≡ some file_too_large
unfolding attachment_refusal
attachment_refusal_test = refl
