-- ===== src/Flags/Tests.antt =====
-- Flags at concrete inputs.
use crypt_mail.Prelude.{true, Option, some, List, [], ◌∷◌, Text, codes}
use crypt_mail.Mail.{MailSummary, FlagPatch, no_change}
use crypt_mail.Samples.{mail}

abbrev inbox_labels : Option (List Text)
inbox_labels = some (codes "INBOX" ∷ codes "work" ∷ [])

abbrev inbox : List MailSummary
inbox = mail (codes "a") (codes "one") ∷ mail (codes "b") (codes "two") ∷ []

abbrev starring : FlagPatch
starring = record no_change { starred = some true }
