-- ===== src/Search/Refining.antt =====
-- What a longer query finds.
use crypt_mail.Prelude.{
  ◌≡◌, refl, Bool, true, Option, List, [], ◌∷◌, arith, if◌then◌else◌, ==_iff, Text, codes,
  starts_with, includes, join, is_empty, Locale, canonical,
}
use crypt_mail.Mail.{MailSummary}
use crypt_mail.Search.{
  given_texts, SearchIndex, searched_parts, message_matches_query, text_matches_query,
}

starts_with_trans :
    (t q p : Text) → starts_with t q ≡ true → starts_with q p ≡ true → starts_with t p ≡ true
unfolding starts_with
starts_with_trans t q [] h i = refl
starts_with_trans [] [] (z ∷ p) h i = i
starts_with_trans (x ∷ t) [] (z ∷ p) h i = absurd (cc i)
starts_with_trans [] (y ∷ q) (z ∷ p) h i = h
starts_with_trans (x ∷ t) (y ∷ q) (z ∷ p) h i =
    ground (arith, starts_with_trans t q p, ==_iff x y, ==_iff y z, ==_iff x z)

starts_with-includes :
    (t q p : Text) → starts_with t q ≡ true → includes q p ≡ true → includes t p ≡ true
unfolding starts_with includes
starts_with-includes [] [] p h i = i
starts_with-includes [] (y ∷ q) p h i = absurd (cc h)
starts_with-includes (x ∷ t) [] [] h i = refl
starts_with-includes (x ∷ t) [] (z ∷ p) h i = absurd (cc i)
starts_with-includes (x ∷ t) (y ∷ q) p h i =
    ground (arith, starts_with_trans (x ∷ t) (y ∷ q) p h, starts_with-includes t q p)

includes_trans : (t q p : Text) → includes t q ≡ true → includes q p ≡ true → includes t p ≡ true
unfolding includes
includes_trans [] q p h i = starts_with-includes [] q p h i
includes_trans (x ∷ t) q p h i =
    ground (arith, starts_with-includes (x ∷ t) q p, includes_trans t q p)

includes_nil : (t p : Text) → includes t p ≡ true → is_empty t ≡ true → is_empty p ≡ true
unfolding includes starts_with
includes_nil [] [] h e = refl
includes_nil [] (z ∷ p) h e = absurd (cc h)
includes_nil (x ∷ t) p h e = absurd (cc e)

-- A query that contains another, once both are trimmed and in lower case, finds no mail that the other
-- does not find, and no draft or held message.
pub queries-refine :
    (loc : Locale) (longer shorter : Text)
    → includes (canonical loc longer) (canonical loc shorter) ≡ true
    → ((summary : MailSummary) (encrypted : Bool) (index : SearchIndex)
        → message_matches_query loc summary encrypted index longer ≡ true
        → message_matches_query loc summary encrypted index shorter ≡ true)
      × ((fields : List (Option Text))
          → text_matches_query loc fields longer ≡ true
          → text_matches_query loc fields shorter ≡ true)
unfolding message_matches_query text_matches_query
queries-refine loc longer shorter h = (
  (λ summary encrypted index.
      refined (loc.lower (join (codes " ") (searched_parts summary encrypted index)))),
  (λ fields. refined (loc.lower (join (codes " ") (given_texts fields)))),
)
  where
    refined :
        (t : Text)
        → (if is_empty (canonical loc longer) then true else includes t (canonical loc longer))
          ≡ true
        → (if is_empty (canonical loc shorter) then true else includes t (canonical loc shorter))
          ≡ true
    refined t m = ground (
      arith,
      includes_nil (canonical loc longer) (canonical loc shorter) h,
      λ (i : includes t (canonical loc longer) ≡ true).
          includes_trans t (canonical loc longer) (canonical loc shorter) i h,
    )
