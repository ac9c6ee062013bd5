-- ===== src/Keyring/Shape.antt =====
-- The shape of the ring that learning, choosing and forgetting keys keep.
pub mod Choice
use crypt_mail.Prelude.{
  Text, ◌≡◌, refl, subst, inl, inr, Bool, false, Option, none, some, List, [], ◌∷◌, filter, find?,
  All, lookup, insert, lookup-insert, lookup-remove, text_eq, text_eq_iff, Bool-cases, arith,
}
use crypt_mail.Keyring.{
  Keyring, ContactKey, OtherKey, PublicKeyInfo, Source, RotationEvidence, or_nil, has_fingerprint,
  lacks_fingerprint, with_other, as_other, replaced, noted, differing, upserted, upsert_key,
  remove_key, all_aside, drop_first,
}

-- No entry of the list has this fingerprint.
abbrev pub Without : Text → List OtherKey → Type 0
Without f = All (λ (k : OtherKey). text_eq k.fingerprint f ≡ false)

-- The list has every fingerprint once.
abbrev pub FingerprintsDistinct : List OtherKey → Type 0
FingerprintsDistinct [] = Unit
FingerprintsDistinct (k ∷ ks) = Without k.fingerprint ks × FingerprintsDistinct ks

-- An entry stands under its own address, and no key of it is listed twice.
pub record IsEntry (email : Text) (c : ContactKey) : Type 0 where
  pub keyed : c.email ≡ email
  pub apart : Without c.fingerprint (or_nil c.other_keys)
  pub distinct : FingerprintsDistinct (or_nil c.other_keys)

abbrev pub IsRing : Keyring → Type 0
IsRing ring = (email : Text) (c : ContactKey) → lookup email ring ≡ some c → IsEntry email c

filter-Without :
    (f : Text) (p : OtherKey → Bool) (ks : List OtherKey) → Without f ks → Without f (filter p ks)
filter-Without f p [] w = tt
filter-Without f p (k ∷ ks) w = elim (Bool-cases (p k)) [
  | inl e ↦ rw e (w.0, filter-Without f p ks w.1)
  | inr n ↦ rw n (filter-Without f p ks w.1)
]

filter-FingerprintsDistinct :
    (p : OtherKey → Bool) (ks : List OtherKey)
    → FingerprintsDistinct ks
    → FingerprintsDistinct (filter p ks)
filter-FingerprintsDistinct p [] d = tt
filter-FingerprintsDistinct p (k ∷ ks) d = elim (Bool-cases (p k)) [
  | inl e ↦ rw e (filter-Without k.fingerprint p ks d.0, filter-FingerprintsDistinct p ks d.1)
  | inr n ↦ rw n (filter-FingerprintsDistinct p ks d.1)
]

-- What `filter` drops is gone.
pub filter-lacks : (f : Text) (ks : List OtherKey) → Without f (filter (lacks_fingerprint f) ks)
filter-lacks f [] = tt
filter-lacks f (k ∷ ks) = elim (Bool-cases (text_eq k.fingerprint f)) [
  | inl e ↦ rw e (filter-lacks f ks)
  | inr n ↦ rw n (n, filter-lacks f ks)
]

all_aside-Without : (f : Text) (ks : List OtherKey) → Without f ks → Without f (all_aside ks)
all_aside-Without f [] w = tt
all_aside-Without f (k ∷ ks) w = (w.0, all_aside-Without f ks w.1)

all_aside-FingerprintsDistinct :
    (ks : List OtherKey) → FingerprintsDistinct ks → FingerprintsDistinct (all_aside ks)
all_aside-FingerprintsDistinct [] d = tt
all_aside-FingerprintsDistinct (k ∷ ks) d =
    (all_aside-Without k.fingerprint ks d.0, all_aside-FingerprintsDistinct ks d.1)

drop_first-Without : (f g : Text) (ks : List OtherKey) → Without g ks → Without g (drop_first f ks)
drop_first-Without f g [] w = tt
drop_first-Without f g (k ∷ ks) w = elim (Bool-cases (text_eq k.fingerprint f)) [
  | inl e ↦ rw e w.1
  | inr n ↦ rw n (w.0, drop_first-Without f g ks w.1)
]

drop_first-FingerprintsDistinct :
    (f : Text) (ks : List OtherKey)
    → FingerprintsDistinct ks
    → FingerprintsDistinct (drop_first f ks) × Without f (drop_first f ks)
drop_first-FingerprintsDistinct f [] d = (tt, tt)
drop_first-FingerprintsDistinct f (k ∷ ks) d = elim (Bool-cases (text_eq k.fingerprint f)) [
  | inl e ↦ rw e (d.1, subst (λ g. Without g ks) ((text_eq_iff k.fingerprint f).0 e) d.0)
  | inr n ↦
      let (rest, none_left) = drop_first-FingerprintsDistinct f ks d.1 in
      rw n ((drop_first-Without f k.fingerprint ks d.0, rest), (n, none_left))
]

text_eq-false_sym : (s t : Text) → text_eq s t ≡ false → text_eq t s ≡ false
text_eq-false_sym s t h = ground (arith, text_eq_iff s t, text_eq_iff t s)

-- `with_other` of a key that is not in use keeps the shape.
with_other-apart :
    (f : Text) (key : OtherKey) (ks : List OtherKey)
    → text_eq key.fingerprint f ≡ false
    → Without f ks
    → Without f (with_other ks key)
unfolding with_other
with_other-apart f key ks n w = (n, filter-Without f (lacks_fingerprint key.fingerprint) ks w)

with_other-FingerprintsDistinct :
    (key : OtherKey) (ks : List OtherKey)
    → FingerprintsDistinct ks
    → FingerprintsDistinct (with_other ks key)
unfolding with_other
with_other-FingerprintsDistinct key ks d = (
  filter-lacks key.fingerprint ks,
  filter-FingerprintsDistinct (lacks_fingerprint key.fingerprint) ks d,
)

pub find?-fingerprint :
    (f : Text) (ks : List OtherKey) (k : OtherKey)
    → find? (has_fingerprint f) ks ≡ some k
    → k.fingerprint ≡ f
find?-fingerprint f [] k h = cc
find?-fingerprint f (j ∷ ks) k h = elim (Bool-cases (text_eq j.fingerprint f)) [
  | inl e ↦ ground (arith, text_eq_iff j.fingerprint f)
  | inr n ↦ find?-fingerprint f ks k (rw n at h)
]

module _ (key : PublicKeyInfo) (source : Source) (name : Option Text) (rotation : RotationEvidence)
    (now : Text) where
  replaced-IsEntry :
      (existing : ContactKey) (known : Option OtherKey)
      → IsEntry key.email existing
      → text_eq existing.fingerprint key.fingerprint ≡ false
      → IsEntry key.email (replaced existing key source name rotation known now)
  unfolding replaced
  replaced-IsEntry existing known v n = record {
    keyed = refl;
    apart =
        with_other-apart key.fingerprint (as_other existing)
          (filter (lacks_fingerprint key.fingerprint) (or_nil existing.other_keys)) n
          (filter-lacks key.fingerprint (or_nil existing.other_keys));
    distinct =
        with_other-FingerprintsDistinct (as_other existing)
          (filter (lacks_fingerprint key.fingerprint) (or_nil existing.other_keys))
          (filter-FingerprintsDistinct (lacks_fingerprint key.fingerprint)
            (or_nil existing.other_keys) v.distinct);
  }

  noted-IsEntry :
      (existing : ContactKey) (known : OtherKey)
      → IsEntry key.email existing
      → text_eq existing.fingerprint key.fingerprint ≡ false
      → known.fingerprint ≡ key.fingerprint
      → IsEntry key.email (noted existing known now)
  unfolding noted
  noted-IsEntry existing known v n e = record {
    keyed = v.keyed;
    apart =
        with_other-apart existing.fingerprint (record known { last_seen = now })
          (or_nil existing.other_keys)
          (rw e (text_eq-false_sym existing.fingerprint key.fingerprint n)) v.apart;
    distinct =
        with_other-FingerprintsDistinct (record known { last_seen = now })
          (or_nil existing.other_keys) v.distinct;
  }

  differing-IsEntry :
      (existing : ContactKey) (known : Option OtherKey)
      → IsEntry key.email existing
      → text_eq existing.fingerprint key.fingerprint ≡ false
      → ((k : OtherKey) → known ≡ some k → k.fingerprint ≡ key.fingerprint)
      → IsEntry key.email (differing existing key source name rotation known now)
  unfolding differing
  differing-IsEntry existing none v n e = replaced-IsEntry existing none v n
  differing-IsEntry existing (some known) v n e = elim (Bool-cases known.set_aside) [
    | inl aside ↦ simp aside (noted-IsEntry existing known v n (e known refl))
    | inr not_aside ↦ simp not_aside (replaced-IsEntry existing (some known) v n)
  ]

  upserted-IsEntry :
      (entry : Option ContactKey)
      → ((c : ContactKey) → entry ≡ some c → IsEntry key.email c)
      → IsEntry key.email (upserted entry key source name rotation now)
  unfolding upserted
  upserted-IsEntry none v = record { keyed = refl; apart = tt; distinct = tt }
  upserted-IsEntry (some existing) v =
      elim (Bool-cases (text_eq existing.fingerprint key.fingerprint)) [
        | inl same ↦ rw same (record {
          keyed = refl;
          apart =
              subst (λ f. Without f (or_nil existing.other_keys))
                ((text_eq_iff existing.fingerprint key.fingerprint).0 same) (v existing refl).apart;
          distinct = (v existing refl).distinct;
        })
        | inr n ↦ rw n (
            differing-IsEntry existing
              (find? (has_fingerprint key.fingerprint) (or_nil existing.other_keys))
              (v existing refl) n
              (λ k h. find?-fingerprint key.fingerprint (or_nil existing.other_keys) k h))
      ]

insert-IsRing :
    (email : Text) (c : ContactKey) (ring : Keyring)
    → IsEntry email c
    → IsRing ring
    → IsRing (insert email c ring)
insert-IsRing email c ring v r j d h = elim (Bool-cases (text_eq email j)) [
  | inl e ↦
      subst (IsEntry j) (ground (arith, lookup-insert email j c ring))
        (subst (λ k. IsEntry k c) ((text_eq_iff email j).0 e) v)
  | inr n ↦ r j d (ground (arith, lookup-insert email j c ring))
]

-- Learning a key, from any source and with or without proof of a rotation, keeps every entry under
-- its own address, the key in use out of the entry's other keys, and those distinct.
pub upsert_key-IsRing :
    (ring : Keyring) (key : PublicKeyInfo) (source : Source) (name : Option Text)
    (rotation : RotationEvidence) (now : Text)
    → IsRing ring
    → IsRing (upsert_key ring key source name rotation now)
unfolding upsert_key
upsert_key-IsRing ring key source name rotation now r =
    insert-IsRing key.email (upserted (lookup key.email ring) key source name rotation now) ring
      (upserted-IsEntry key source name rotation now (lookup key.email ring) (r key.email)) r

-- Forgetting an address keeps the shape of the rest.
pub remove_key-IsRing :
    (ring : Keyring) (email : Text) → IsRing ring → IsRing (remove_key ring email)
unfolding remove_key
remove_key-IsRing ring email r j c h = r j c (ground (arith, lookup-remove email j ring))
