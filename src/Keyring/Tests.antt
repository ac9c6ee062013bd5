-- ===== src/Keyring/Tests.antt =====
-- The keyring at concrete inputs.
use crypt_mail.Prelude.{
  ◌≡◌, refl, subst, ◌≢◌, inl, inr, none, some, [], ◌∷◌, Bool-cases, some_injective, text_eq,
  text_eq_iff, lookup,
}
use crypt_mail.Keyring.{Trust, ContactKey, Keyring, upsert_key, directory, no_evidence}
use crypt_mail.Keyring.Shape.{IsEntry, IsRing, upsert_key-IsRing}
use crypt_mail.Keyring.Upsert.{IsBlocked, upsert_key-IsBlocked}
use crypt_mail.Keyring.{remove_key}
use crypt_mail.Keyring.Reach.{start, learned, forgotten, Reachable-IsRing}
use crypt_mail.Samples.{ascii, ann, key_of, f1, f2, t2, ann_contact, ann_ring, texts_apart}

ann_ring-IsRing : IsRing ann_ring
unfolding lookup text_eq
ann_ring-IsRing email c h = elim (Bool-cases (text_eq ann email)) [
  | inl e ↦
      let found = some_injective ann_contact c (simp e at h) in
      subst (IsEntry email) found
        (record { keyed = (text_eq_iff ann email).0 e; apart = tt; distinct = tt })
  | inr n ↦ absurd (cc (simp n at h))
]

-- A second key for Ann, unsigned.
abbrev changed_ring : Keyring
changed_ring = upsert_key ann_ring (key_of ann f2) directory none no_evidence t2

f1_ne_f2 : f1 ≢ f2
unfolding text_eq
f1_ne_f2 = texts_apart f1 f2 refl

changed_ring-IsRing : IsRing changed_ring
changed_ring-IsRing =
    upsert_key-IsRing ann_ring (key_of ann f2) directory none no_evidence t2 ann_ring-IsRing

upsert_key-IsBlocked_example :
    (c : ContactKey) × (lookup ann changed_ring ≡ some c)
    × IsBlocked ann_contact (key_of ann f2) t2 c
unfolding lookup text_eq
upsert_key-IsBlocked_example =
    upsert_key-IsBlocked ann_ring (key_of ann f2) directory none t2 ann_contact refl f1_ne_f2
      (λ k h. absurd (cc h))

-- Ann's key, learned again after it was verified.
abbrev verified_ring : Keyring
verified_ring = (ann, record ann_contact { trust = Trust.verified }) ∷ []

Reachable-IsRing_example :
    IsRing (remove_key (upsert_key [] (key_of ann f1) directory none no_evidence t2) ann)
Reachable-IsRing_example =
    Reachable-IsRing ascii
      (remove_key (upsert_key [] (key_of ann f1) directory none no_evidence t2) ann)
      (forgotten ann (learned (key_of ann f1) directory none no_evidence t2 start))
