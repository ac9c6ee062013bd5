-- ===== src/Keyring/Reach.antt =====
-- The keyrings that a device can come to hold: from the empty one, by learning keys, by the user's
-- choices and by forgetting addresses.
use crypt_mail.Prelude.{Option, some, [], Text, lookup, Locale, ◌≡◌}
use crypt_mail.Keyring.{
  Keyring, PublicKeyInfo, Source, RotationEvidence, upsert_key, remove_key, choose_key,
}
use crypt_mail.Keyring.Shape.{IsRing, upsert_key-IsRing, remove_key-IsRing}
use crypt_mail.Keyring.Shape.Choice.{choose_key-IsRing}

pub data Reachable (loc : Locale) : Keyring → Type 0 where
  start : Reachable loc []
  learned :
      {ring : Keyring} (key : PublicKeyInfo) (source : Source) (name : Option Text)
      (rotation : RotationEvidence) (now : Text)
      → Reachable loc ring
      → Reachable loc (upsert_key ring key source name rotation now)
  chosen :
      {ring after : Keyring} (email f at : Text)
      → choose_key loc ring email f at ≡ some after
      → Reachable loc ring
      → Reachable loc after
  forgotten :
      {ring : Keyring} (email : Text) → Reachable loc ring → Reachable loc (remove_key ring email)

empty-IsRing : IsRing []
unfolding lookup
empty-IsRing email c h = absurd (cc h)

-- In every keyring that a device can come to hold, from the empty one by learning keys from any source, by
-- choosing between the keys of an address and by forgetting addresses, each entry stands under its own
-- address, the key in use is not among the entry's other keys, and those are distinct.
pub Reachable-IsRing : (loc : Locale) (ring : Keyring) → Reachable loc ring → IsRing ring
Reachable-IsRing loc ring start = empty-IsRing
Reachable-IsRing loc ring (learned {ring = before} key source name rotation now r) =
    upsert_key-IsRing before key source name rotation now (Reachable-IsRing loc before r)
Reachable-IsRing loc ring (chosen {ring = before} email f at e r) =
    choose_key-IsRing loc before ring email f at (Reachable-IsRing loc before r) e
Reachable-IsRing loc ring (forgotten {ring = before} email r) =
    remove_key-IsRing before email (Reachable-IsRing loc before r)
