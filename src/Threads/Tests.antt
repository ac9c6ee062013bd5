-- ===== src/Threads/Tests.antt =====
-- Conversations at concrete inputs.
use crypt_mail.Prelude.{some, List, [], ◌∷◌, codes}
use crypt_mail.Mail.{MailSummary}
use crypt_mail.Samples.{mail}

abbrev inbox : List MailSummary
inbox =
    record (mail (codes "a") (codes "one")) { thread_id = some (codes "t") }
    ∷ mail (codes "b") (codes "two")
    ∷ record (mail (codes "c") (codes "one")) { thread_id = some (codes "t") }
    ∷ []
