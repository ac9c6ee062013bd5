-- ===== src/NewMail/Tests.antt =====
-- Observing a sync at a concrete input.
use crypt_mail.Prelude.{
  ℕ, ◌≡◌, Bool, false, Option, some, [], ◌∷◌, arith, Text, codes, text_eq, has_text,
}
use crypt_mail.Samples.{ascii, bob, t1, mail}
use crypt_mail.NewMail.{NotifyLedger, ObserveOptions, primary, every, observe}
use crypt_mail.NewMail.Announcing.{observe-again}

abbrev ten : Text → Option ℕ
ten date = some 10

abbrev never_sealed : Text → Bool
never_sealed subject = false

abbrev ledger : NotifyLedger
ledger = record { since = some t1; seen = codes "old" ∷ []; pending = [] }

abbrev options : ObserveOptions
options = record { self = bob; scope = primary; now_ms = 20; now_iso = t1 }

observe-again_example :
    (observe ascii ten never_sealed
      (observe ascii ten never_sealed ledger (mail (codes "m") (codes "s") ∷ []) options).ledger
      (mail (codes "m") (codes "s") ∷ [])
      (record options { scope = every })).fresh
    ≡ []
unfolding crypt_mail.Prelude.Filed.push_all has_text text_eq
observe-again_example =
    observe-again ascii ten never_sealed ledger (mail (codes "m") (codes "s") ∷ []) options
      (record options { scope = every }) (omega arith) (omega arith)
