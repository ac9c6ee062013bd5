-- ===== src/Learning/Tests.antt =====
-- Learning keys at concrete inputs.
use crypt_mail.Prelude.{
  ◌≡◌, refl, inl, none, some, [], ◌∷◌, In, Text, codes, text_eq, trim, has_text, lookup, insert,
  canonical,
}
use crypt_mail.Samples.{ascii, ann, bob, ann_ring, ann_contact, key_of, f2, t2}
use crypt_mail.Keyring.{ContactKey, Keyring}
use crypt_mail.Keyring.Choose.{IsSettled}
use crypt_mail.Discovery.{lookup_failed, network}
use crypt_mail.Learning.{Learner, discover, unknown_of}
use crypt_mail.Learning.Marking.{mark_verified}
use crypt_mail.Learning.Trusting.{VerifiesNothing, discover-VerifiesNothing}
use crypt_mail.Learning.Unresolved.{IsUnanswered, discover-IsUnanswered}
use crypt_mail.Learning.Reading.{mark_verified-IsSettled}

-- Every armored block is Ann's key, and the directory answers nobody.
abbrev learner : Learner
learner = record {
  import_public_key = λ armored. some (key_of ann f2);
  look_up = λ email. lookup_failed network;
  addresses_in_key = λ armored. ann ∷ [];
  searches = λ email. [];
  now = t2;
}

discover-VerifiesNothing_example :
    VerifiesNothing ann_ring (discover ascii learner none ann_ring (ann ∷ bob ∷ [])).keyring
discover-VerifiesNothing_example =
    discover-VerifiesNothing ascii learner none ann_ring (ann ∷ bob ∷ [])

discover-IsUnanswered_example :
    In bob (unknown_of ascii learner none ann_ring (bob ∷ [])) × IsUnanswered ascii learner bob
unfolding discover crypt_mail.Learning.learn_each unknown_of crypt_mail.Prelude.Filed.push_all
    has_text canonical trim crypt_mail.Keyring.find_key lookup text_eq crypt_mail.Learning.learn_one
    crypt_mail.Learning.harvest_from_sender crypt_mail.Learning.harvest_boxes
discover-IsUnanswered_example =
    discover-IsUnanswered ascii learner none ann_ring (bob ∷ []) bob (inl refl)

abbrev settled_ring : Keyring
settled_ring = (ann, crypt_mail.Keyring.confirmed ann_contact t2) ∷ []

mark_verified-IsSettled_example :
    (c : ContactKey) × (f : Text) × (lookup ann settled_ring ≡ some c)
    × IsSettled ann_contact f t2 c
    × (ascii.lower f ≡ ascii.lower (codes "aaaa"))
unfolding crypt_mail.Keyring.find_key lookup text_eq canonical trim has_text mark_verified
    crypt_mail.Keyring.choose_key crypt_mail.Learning.Marking.known_fingerprint insert
mark_verified-IsSettled_example =
    mark_verified-IsSettled ascii ascii.lower ann_ring settled_ring ann (codes "aaaa") t2
      ann_contact refl refl refl
