-- ===== src/Drafts/Tests.antt =====
-- Drafts at concrete inputs.
use crypt_mail.Prelude.{◌≡◌, none, some, [], ◌∷◌, Text, codes, lookup}
use mathlib.Core.Path.{refl}
use crypt_mail.Drafts.{Draft, Drafts, upsert_draft, remove_draft}
use crypt_mail.Samples.{ann, t1, t2}

abbrev draft : Text → Text → Draft
draft id at = record {
  fields = record {
    to = ann ∷ [];
    subject = codes "hi";
    body = [];
    html = none;
    attachments = none;
    attachments_omitted = none;
    in_reply_to = none;
    references = none;
  };
  id = id;
  updated_at = at;
  send_error = none;
}

abbrev drafts : Drafts
drafts = upsert_draft ((codes "a", draft (codes "a") t1) ∷ []) (draft (codes "b") t2)

lookup_test : lookup (codes "b") drafts ≡ some (draft (codes "b") t2)
unfolding lookup upsert_draft crypt_mail.Prelude.insert crypt_mail.Prelude.text_eq
lookup_test = refl

remove_draft_test : lookup (codes "b") (remove_draft drafts (codes "b")) ≡ none
unfolding lookup remove_draft crypt_mail.Prelude.remove upsert_draft crypt_mail.Prelude.insert
    crypt_mail.Prelude.text_eq
remove_draft_test = refl
