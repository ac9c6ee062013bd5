-- ===== src/Flags.antt =====
-- Optimistic flag updates over a list of mail (app/src/mail/flags.ts). The inbox's rows carry an
-- account besides; nothing here reads it.
pub mod Patch
mod Tests
use crypt_mail.Prelude.{
  Bool, true, false, ◌||◌, not, Option, none, some, List, [], ◌∷◌, ◌++◌, map, if◌then◌else◌, filter,
  Text, codes, text_eq, has_text, Locale,
}
use crypt_mail.Mail.{MailSummary, FlagPatch}

abbrev pub filing : List Text
filing = codes "INBOX" ∷ codes "SPAM" ∷ codes "JUNK" ∷ []

abbrev pub or_nil : Option (List Text) → List Text
or_nil none = []
or_nil (some labels) = labels

abbrev pub files : Locale → Text → Bool
files loc label = has_text (loc.upper label) filing

unfoldable pub refiled : Locale → Option (List Text) → Bool → List Text
refiled loc labels junk =
    filter (λ label. not (files loc label)) (or_nil labels)
    ++ (if junk then codes "SPAM" else codes "INBOX") ∷ []

abbrev pub is_given : Option Bool → Bool
is_given none = false
is_given (some b) = true

abbrev pub given_or : Option Bool → Bool → Bool
given_or none old = old
given_or (some new) old = new

abbrev pub labels_after : Locale → Option Bool → Option (List Text) → Option (List Text)
labels_after loc none labels = labels
labels_after loc (some junk) labels = some (refiled loc labels junk)

-- The row that the patch is for.
unfoldable pub patched : Locale → FlagPatch → MailSummary → MailSummary
patched loc patch m = record m {
  unread = given_or patch.unread m.unread;
  starred = given_or patch.starred m.starred;
  labels = labels_after loc patch.junk m.labels;
}

abbrev pub is_move : FlagPatch → Bool
is_move patch = is_given patch.archived || is_given patch.trashed

abbrev pub has_id : Text → MailSummary → Bool
has_id id m = text_eq m.id id

unfoldable pub apply_flag_patch : Locale → List MailSummary → Text → FlagPatch → List MailSummary
apply_flag_patch loc messages id patch =
    if is_move patch
    then filter (λ m. not (has_id id m)) messages
    else map (λ m. if has_id id m then patched loc patch m else m) messages
