-- ===== src/Search.antt =====
-- Search over mail (app/src/search/search.ts): what a query is matched against. The index's size bound,
-- which measures its JSON, stands outside.
pub mod Refining
mod Tests
use crypt_mail.Prelude.{
  ℕ, Bool, true, Option, none, some, List, [], ◌∷◌, if◌then◌else◌, Text, codes, includes, join,
  is_empty, Dict, lookup, Locale, canonical,
}
use crypt_mail.Mail.{MailSummary}

pub record IndexEntry : Type 0 where
  pub subject : Text
  pub body : Text
  pub indexed_at : Option ℕ

abbrev pub SearchIndex : Type 0
SearchIndex = Dict IndexEntry

abbrev pub text_or_empty : Option Text → Text
text_or_empty none = []
text_or_empty (some t) = t

-- The texts of an encrypted message: those this device decrypted and indexed, or none.
abbrev pub indexed_parts : Option IndexEntry → List Text
indexed_parts none = []
indexed_parts (some content) = content.subject ∷ content.body ∷ []

unfoldable pub searched_parts : MailSummary → Bool → SearchIndex → List Text
searched_parts summary encrypted index =
    text_or_empty summary.from.name
    ∷ summary.from.address
    ∷ (if encrypted
        then indexed_parts (lookup summary.id index)
        else summary.subject ∷ summary.snippet ∷ [])

unfoldable pub message_matches_query : Locale → MailSummary → Bool → SearchIndex → Text → Bool
message_matches_query loc summary encrypted index query =
    let needle = canonical loc query in
    if is_empty needle
    then true
    else includes (loc.lower (join (codes " ") (searched_parts summary encrypted index))) needle

abbrev pub given_texts : List (Option Text) → List Text
given_texts [] = []
given_texts (none ∷ fields) = given_texts fields
given_texts (some [] ∷ fields) = given_texts fields
given_texts (some (c ∷ t) ∷ fields) = (c ∷ t) ∷ given_texts fields

unfoldable pub text_matches_query : Locale → List (Option Text) → Text → Bool
text_matches_query loc fields query =
    let needle = canonical loc query in
    if is_empty needle
    then true
    else includes (loc.lower (join (codes " ") (given_texts fields))) needle
