-- ===== src/CheckResult.antt =====
-- What to tell someone who asked whether a held message can go yet (app/src/outbox/checkResult.ts).
pub mod Wording
use crypt_mail.Prelude.{
  Bool, not, List, [], ◌∷◌, ◌++◌, map, text, filter, Text, codes, join, has_text, Locale, canonical,
}

pub data CheckKind : Type 0 where
  no_key unreachable : CheckKind

pub record CheckResult : Type 0 where
  pub kind : CheckKind
  pub text : Text

-- `a`, `a and b`, `a, b and c`
abbrev but_last : List Text → List Text
but_last [] = []
but_last (a ∷ []) = []
but_last (a ∷ b ∷ rest) = a ∷ but_last (b ∷ rest)

abbrev last_or : Text → List Text → Text
last_or a [] = a
last_or a (b ∷ rest) = last_or b rest

unfoldable pub list_emails : List Text → Text
list_emails [] = []
list_emails (a ∷ []) = a
list_emails (a ∷ b ∷ rest) =
    join (codes ", ") (but_last (a ∷ b ∷ rest)) ++ (codes " and " ++ last_or b rest)

unfoldable pub verb : List Text → Text
verb [] = codes "has"
verb (a ∷ []) = codes "has"
verb (a ∷ b ∷ rest) = codes "have"

unfoldable pub nothing_changed : Text
nothing_changed = codes "Still waiting. Nothing has changed since the message was queued."

unfoldable pub not_published : List Text → Text
not_published emails =
    list_emails emails
    ++ (codes " "
        ++ (verb emails
            ++ codes
                " not published a key yet. The message stays queued and goes out by itself once they do."))

unfoldable pub failure : List Text → Text
failure emails =
    codes "Couldn't reach the key directory for "
    ++ (list_emails emails
        ++ codes
            ". That is a fault on this side, not an answer about them — the message stays queued and CryptMail keeps trying.")

unfoldable pub not_either : List Text → Text
not_either emails =
    codes " "
    ++ (list_emails emails
        ++ (codes " " ++ (verb emails ++ codes " not published a key yet either.")))

abbrev pub no_key_text : List Text → Text
no_key_text [] = nothing_changed
no_key_text (a ∷ emails) = not_published (a ∷ emails)

abbrev pub unreachable_text : List Text → List Text → Text
unreachable_text reached [] = failure reached
unreachable_text reached (a ∷ emails) = failure reached ++ not_either (a ∷ emails)

module _ (loc : Locale) where
  abbrev pub has_failed : List Text → Text → Bool
  has_failed undiscoverable email =
      has_text (canonical loc email) (map (canonical loc) undiscoverable)

  abbrev pub unreached : List Text → List Text → List Text
  unreached pending undiscoverable = filter (has_failed undiscoverable) pending

  abbrev pub without_key : List Text → List Text → List Text
  without_key pending undiscoverable =
      filter (λ email. not (has_failed undiscoverable email)) pending

  abbrev worded : List Text → List Text → CheckResult
  worded [] keyless = record { kind = no_key; text = no_key_text keyless }
  worded (a ∷ reached) keyless = record {
    kind = unreachable;
    text = unreachable_text (a ∷ reached) keyless;
  }

  unfoldable pub describe_check : List Text → List Text → CheckResult
  describe_check pending undiscoverable =
      worded (unreached pending undiscoverable) (without_key pending undiscoverable)
