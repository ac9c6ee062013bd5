-- ===== src/Notifications/Tests.antt =====
-- Notifications at concrete inputs.
use crypt_mail.Prelude.{◌≡◌, Bool, true, false, none, some, List, [], ◌∷◌, map, Text, codes}
use crypt_mail.Notifications.{NewMail, plan_for, full}
use crypt_mail.Notifications.Privacy.{plan_for-concealed, concealed}
use crypt_mail.Samples.{ann, bob}

abbrev arrived : Text → Bool → NewMail
arrived address encrypted = record {
  from = address;
  from_name = none;
  subject = some (codes "secret");
  snippet = none;
  encrypted = encrypted;
  decrypted = false;
}

abbrev batch : List NewMail
batch = arrived ann true ∷ arrived bob false ∷ []

plan_for-concealed_example :
    plan_for (map (concealed (λ m. arrived bob true)) batch) full false ≡ plan_for batch full false
plan_for-concealed_example = plan_for-concealed (λ m. arrived bob true) batch full false
