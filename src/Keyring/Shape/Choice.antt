-- ===== src/Keyring/Shape/Choice.antt =====
-- The user's choice keeps the shape of the ring.
use crypt_mail.Prelude.{
  ◌≡◌, refl, sym, subst, inl, inr, false, some, Bool-cases, Option-cases, some_injective, find?,
  Text, text_eq, lookup, Locale, canonical,
}
use crypt_mail.Keyring.{
  OtherKey, ContactKey, Keyring, or_nil, as_other, has_fingerprint, with_other, find_key,
  drop_first, confirmed, switched, choose_key,
}
use crypt_mail.Keyring.{choose_from}
use crypt_mail.Keyring.Shape.{IsEntry, IsRing, find?-fingerprint}
use crypt_mail.Keyring.Shape.{
  all_aside-Without, all_aside-FingerprintsDistinct, drop_first-FingerprintsDistinct,
  with_other-apart, with_other-FingerprintsDistinct, insert-IsRing,
}

confirmed-IsEntry :
    (old : ContactKey) (at : Text) → IsEntry old.email old → IsEntry old.email (confirmed old at)
unfolding confirmed
confirmed-IsEntry old at v = record {
  keyed = refl;
  apart = all_aside-Without old.fingerprint (or_nil old.other_keys) v.apart;
  distinct = all_aside-FingerprintsDistinct (or_nil old.other_keys) v.distinct;
}

switched-IsEntry :
    (old : ContactKey) (chosen : OtherKey) (at : Text)
    → IsEntry old.email old
    → text_eq old.fingerprint chosen.fingerprint ≡ false
    → IsEntry old.email (switched old chosen at)
unfolding switched
switched-IsEntry old chosen at v n =
    let (rest, gone) =
      drop_first-FingerprintsDistinct chosen.fingerprint (or_nil old.other_keys) v.distinct in
    record {
      keyed = refl;
      apart =
          all_aside-Without chosen.fingerprint
            (with_other (drop_first chosen.fingerprint (or_nil old.other_keys)) (as_other old))
            (with_other-apart chosen.fingerprint (as_other old)
              (drop_first chosen.fingerprint (or_nil old.other_keys)) (unfold as_other in n) gone);
      distinct =
          all_aside-FingerprintsDistinct
            (with_other (drop_first chosen.fingerprint (or_nil old.other_keys)) (as_other old))
            (with_other-FingerprintsDistinct (as_other old)
              (drop_first chosen.fingerprint (or_nil old.other_keys)) rest);
    }

choose_from-IsRing :
    (ring ring' : Keyring) (old : ContactKey) (f at : Text)
    → IsRing ring
    → IsEntry old.email old
    → choose_from ring (some old) f at ≡ some ring'
    → IsRing ring'
choose_from-IsRing ring ring' old f at r v h = elim (Bool-cases (text_eq old.fingerprint f)) [
  | inl same ↦
      subst IsRing (some_injective _ _ (simp same at h))
        (insert-IsRing old.email (confirmed old at) ring (confirmed-IsEntry old at v) r)
  | inr other ↦ elim (Option-cases (find? (has_fingerprint f) (or_nil old.other_keys))) [
    | inl missing ↦ absurd (cc (simp (other, missing) at h))
    | inr (chosen, found) ↦ subst IsRing (some_injective _ _ (simp (other, found) at h)) (
        insert-IsRing old.email (switched old chosen at) ring
          (switched-IsEntry old chosen at v (
            subst (λ g. text_eq old.fingerprint g ≡ false)
              (sym (find?-fingerprint f (or_nil old.other_keys) chosen found)) other))
          r)
  ]
]

-- A choice keeps every entry under its own address, the key in use out of the entry's other keys, and
-- those distinct.
pub choose_key-IsRing :
    (loc : Locale) (ring ring' : Keyring) (email f at : Text)
    → IsRing ring
    → choose_key loc ring email f at ≡ some ring'
    → IsRing ring'
unfolding choose_key find_key
choose_key-IsRing loc ring ring' email f at r h =
    elim (Option-cases (lookup (canonical loc email) ring)) [
      | inl absent ↦ absurd (cc (rw absent at h))
      | inr (old, found) ↦
          let v = r (canonical loc email) old found in
          choose_from-IsRing ring ring' old f at r (subst (λ e. IsEntry e old) (sym v.keyed) v)
            (rw found at h)
    ]
