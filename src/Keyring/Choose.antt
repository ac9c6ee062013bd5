-- ===== src/Keyring/Choose.antt =====
-- What the user's choice between the keys of an address settles.
pub mod Refusing
use crypt_mail.Prelude.{
  ◌≡◌, refl, sym, ap, ◌∙◌, subst, ◌≢◌, ◌↔◌, ◌⊎◌, inl, inr, true, false, ◌||◌, not, Option, none,
  some, List, [], ◌∷◌, arith, Bool-cases, Option-cases, some_injective, filter, any, find?, Text,
  text_eq, text_eq_iff, lookup, In, lookup-insert_self, Locale,
}
use crypt_mail.Keyring.{
  Keyring, ContactKey, OtherKey, PublicKeyInfo, Source, RotationEvidence, verified, or_nil,
  has_fingerprint, lacks_fingerprint, as_other, with_other, noted, differing, undecided_keys,
  upserted, upsert_key, find_key, all_aside, drop_first, confirmed, switched, choose_from,
  choose_key,
}
use crypt_mail.Keyring.Shape.{find?-fingerprint}
use crypt_mail.Keyring.Upsert.{lookup-upsert_key_known}
use crypt_mail.Keyring.Choose.Refusing.{choose_from-none, none-choose_from}
use crypt_mail.Keyring.Choose.Refusing.{holds}

-- The key that an entry has on file under a fingerprint: the one in use, or one of the others.
abbrev pub IsOnFile : ContactKey → Text → Text → Option Text → Type 0
IsOnFile old f armored user_id =
    ((old.fingerprint ≡ f) × (armored ≡ old.armored) × (user_id ≡ old.user_id))
    ⊎ ((old.fingerprint ≢ f)
        × ((k : OtherKey) × In k (or_nil old.other_keys)
            × (k.fingerprint ≡ f)
            × (armored ≡ k.armored)
            × (user_id ≡ k.user_id)))

-- The entry after the choice of `f` out of `old`.
pub record IsSettled (old : ContactKey) (f : Text) (at : Text) (c : ContactKey) : Type 0 where
  pub in_use : c.fingerprint ≡ f
  pub on_file : IsOnFile old f c.armored c.user_id
  pub trusted : c.trust ≡ verified
  pub dated : c.verified_at ≡ some at
  pub decided : undecided_keys c ≡ []
  pub complete :
      (g : Text) → g ≢ f → holds old g ≡ true → any (has_fingerprint g) (or_nil c.other_keys) ≡ true

module _ (g : Text) where
  any-all_aside :
      (ks : List OtherKey) → any (has_fingerprint g) (all_aside ks) ≡ any (has_fingerprint g) ks
  any-all_aside [] = refl
  any-all_aside (k ∷ ks) = ap (λ b. text_eq k.fingerprint g || b) (any-all_aside ks)

  any-drop_first :
      (f : Text) (ks : List OtherKey)
      → g ≢ f
      → any (has_fingerprint g) (drop_first f ks) ≡ any (has_fingerprint g) ks
  any-drop_first f [] n = refl
  any-drop_first f (k ∷ ks) n =
      ground
        (arith, any-drop_first f ks n, text_eq_iff k.fingerprint f, text_eq_iff k.fingerprint g)

  any-lacks :
      (f : Text) (ks : List OtherKey)
      → g ≢ f
      → any (has_fingerprint g) (filter (lacks_fingerprint f) ks) ≡ any (has_fingerprint g) ks
  any-lacks f [] n = refl
  any-lacks f (k ∷ ks) n =
      ground (arith, any-lacks f ks n, text_eq_iff k.fingerprint f, text_eq_iff k.fingerprint g)

  -- Of a list that is all set aside, the entry for a fingerprint is set aside.
  find?-aside :
      (ks : List OtherKey)
      → filter (λ k. not k.set_aside) ks ≡ []
      → any (has_fingerprint g) ks ≡ true
      → (k : OtherKey) × (find? (has_fingerprint g) ks ≡ some k) × (k.set_aside ≡ true)
  find?-aside [] d h = cc
  find?-aside (k ∷ ks) d h = elim (Bool-cases k.set_aside) [
    | inl aside ↦ elim (Bool-cases (text_eq k.fingerprint g)) [
      | inl e ↦ (k, simp e, aside)
      | inr n ↦
          let (j, found, j_aside) = find?-aside ks (simp aside at d) (simp n at h) in
          (j, simp n found, j_aside)
    ]
    | inr open_question ↦ absurd (cc (simp open_question at d))
  ]

  any-with_other :
      (ks : List OtherKey) (key : OtherKey)
      → any (has_fingerprint g) (with_other ks key)
        ≡ (text_eq key.fingerprint g || any (has_fingerprint g) ks)
  unfolding with_other
  any-with_other ks key = elim (Bool-cases (text_eq key.fingerprint g)) [
    | inl e ↦ simp e
    | inr n ↦
        simp n
          (any-lacks key.fingerprint ks (λ e. cc (n, (text_eq_iff key.fingerprint g).1 (sym e))))
  ]

undecided-all_aside : (ks : List OtherKey) → filter (λ k. not k.set_aside) (all_aside ks) ≡ []
undecided-all_aside [] = refl
undecided-all_aside (k ∷ ks) = undecided-all_aside ks

confirmed-IsSettled :
    (old : ContactKey) (f at : Text) → old.fingerprint ≡ f → IsSettled old f at (confirmed old at)
unfolding confirmed undecided_keys
confirmed-IsSettled old f at e = record {
  in_use = e;
  on_file = inl (e, refl, refl);
  trusted = refl;
  dated = refl;
  decided = undecided-all_aside (or_nil old.other_keys);
  complete = λ g n h.
      any-all_aside g (or_nil old.other_keys) ∙ ground (arith, text_eq_iff old.fingerprint g);
}

switched-IsSettled :
    (old : ContactKey) (chosen : OtherKey) (f at : Text)
    → chosen.fingerprint ≡ f
    → old.fingerprint ≢ f
    → In chosen (or_nil old.other_keys)
    → IsSettled old f at (switched old chosen at)
unfolding switched undecided_keys
switched-IsSettled old chosen f at e other listed = record {
  in_use = e;
  on_file = inr (other, (chosen, listed, e, refl, refl));
  trusted = refl;
  dated = refl;
  decided =
      undecided-all_aside
        (with_other (drop_first chosen.fingerprint (or_nil old.other_keys)) (as_other old));
  complete = λ g n h.
      any-all_aside g
        (with_other (drop_first chosen.fingerprint (or_nil old.other_keys)) (as_other old))
      ∙ any-with_other g (drop_first chosen.fingerprint (or_nil old.other_keys)) (as_other old)
      ∙ ap (λ b. text_eq old.fingerprint g || b)
          (any-drop_first g chosen.fingerprint (or_nil old.other_keys) (λ q. n (q ∙ e)))
      ∙ h;
}

find?-listed :
    (f : Text) (ks : List OtherKey) (k : OtherKey) → find? (has_fingerprint f) ks ≡ some k → In k ks
find?-listed f [] k h = absurd (cc h)
find?-listed f (j ∷ ks) k h = elim (Bool-cases (text_eq j.fingerprint f)) [
  | inl e ↦ inl (sym (some_injective j k (simp e at h)))
  | inr n ↦ inr (find?-listed f ks k (simp n at h))
]

-- The entry that the choice writes, if it writes one.
choose_from-IsSettled :
    (ring ring' : Keyring) (old : ContactKey) (f at : Text)
    → choose_from ring (some old) f at ≡ some ring'
    → (c : ContactKey) × (lookup old.email ring' ≡ some c) × IsSettled old f at c
choose_from-IsSettled ring ring' old f at h = elim (Bool-cases (text_eq old.fingerprint f)) [
  | inl same ↦ (
    confirmed old at,
    subst (λ r. lookup old.email r ≡ some (confirmed old at)) (some_injective _ _ (simp same at h))
        (lookup-insert_self old.email (confirmed old at) ring),
    confirmed-IsSettled old f at ((text_eq_iff old.fingerprint f).0 same),
  )
  | inr other ↦ elim (Option-cases (find? (has_fingerprint f) (or_nil old.other_keys))) [
    | inl missing ↦ absurd (cc (simp (other, missing) at h))
    | inr (chosen, found) ↦ (
      switched old chosen at,
      subst (λ r. lookup old.email r ≡ some (switched old chosen at))
          (some_injective _ _ (simp (other, found) at h))
          (lookup-insert_self old.email (switched old chosen at) ring),
      switched-IsSettled old chosen f at (find?-fingerprint f (or_nil old.other_keys) chosen found)
          (λ e. cc (other, (text_eq_iff old.fingerprint f).1 e))
          (find?-listed f (or_nil old.other_keys) chosen found),
    )
  ]
]

-- After a choice the chosen key, as the entry had it on file, is in use and `verified`, no key of the address is undecided, and
-- every other key that the entry held is still listed.
pub choose_key-IsSettled :
    (loc : Locale) (ring ring' : Keyring) (email f at : Text) (old : ContactKey)
    → find_key loc ring email ≡ some old
    → choose_key loc ring email f at ≡ some ring'
    → (c : ContactKey) × (lookup old.email ring' ≡ some c) × IsSettled old f at c
unfolding choose_key
choose_key-IsSettled loc ring ring' email f at old found chose =
    choose_from-IsSettled ring ring' old f at (rw found at chose)

-- The choice is refused exactly when the ring has no entry for the address, or an entry that holds
-- no key under that fingerprint.
pub choose_key-refused :
    (loc : Locale) (ring : Keyring) (email f at : Text)
    → (choose_key loc ring email f at ≡ none)
      ↔ ((c : ContactKey) → find_key loc ring email ≡ some c → holds c f ≡ false)
unfolding choose_key
choose_key-refused loc ring email f at = elim (Option-cases (find_key loc ring email)) [
  | inl absent ↦ ((λ h c found. cc), (λ h. rw absent))
  | inr (old, found) ↦ (
    (λ h c same. choose_from-none ring c f at (rw same at h)),
    (λ h. rw found (none-choose_from ring old f at (h old found))),
  )
]

settled-differing :
    (c : ContactKey) (k : OtherKey) (f : Text) (key : PublicKeyInfo) (source : Source)
    (name : Option Text) (rotation : RotationEvidence) (now : Text)
    → k.set_aside ≡ true
    → c.fingerprint ≡ f
    → c.trust ≡ verified
    → ((differing c key source name rotation (some k) now).fingerprint ≡ f)
      × ((differing c key source name rotation (some k) now).trust ≡ verified)
unfolding differing noted
settled-differing c k f key source name rotation now aside in_use trusted =
    simp aside (in_use, trusted)

settled-upserted :
    (old c : ContactKey) (f at : Text) (key : PublicKeyInfo) (source : Source) (name : Option Text)
    (rotation : RotationEvidence) (now : Text)
    → IsSettled old f at c
    → holds old key.fingerprint ≡ true
    → ((upserted (some c) key source name rotation now).fingerprint ≡ f)
      × ((upserted (some c) key source name rotation now).trust ≡ verified)
unfolding upserted
settled-upserted old c f at key source name rotation now s h =
    elim (Bool-cases (text_eq c.fingerprint key.fingerprint)) [
      | inl same ↦
          simp same (sym ((text_eq_iff c.fingerprint key.fingerprint).0 same) ∙ s.in_use, s.trusted)
      | inr n ↦
          let listed =
            s.complete key.fingerprint
              (λ e. cc (n, (text_eq_iff c.fingerprint key.fingerprint).1 (s.in_use ∙ sym e))) h in
          let (k, found, aside) =
            find?-aside key.fingerprint (or_nil c.other_keys) (unfold undecided_keys in s.decided)
              listed in
          simp (n, found)
            (settled-differing c k f key source name rotation now aside s.in_use s.trusted)
    ]

-- Once the user has chosen, no key that the address was known to have displaces the chosen one or
-- blocks the address again: whichever of them arrives, the entry keeps the chosen key, `verified`.
pub choose_key-upsert_key :
    (loc : Locale) (ring ring' : Keyring) (email f at : Text) (old : ContactKey)
    (key : PublicKeyInfo) (source : Source) (name : Option Text) (rotation : RotationEvidence)
    (now : Text)
    → find_key loc ring email ≡ some old
    → choose_key loc ring email f at ≡ some ring'
    → key.email ≡ old.email
    → holds old key.fingerprint ≡ true
    → (c : ContactKey) × (lookup key.email (upsert_key ring' key source name rotation now) ≡ some c)
      × (c.fingerprint ≡ f)
      × (c.trust ≡ verified)
choose_key-upsert_key loc ring ring' email f at old key source name rotation now found chose same
      h =
    let (c, stored, settled) = choose_key-IsSettled loc ring ring' email f at old found chose in
    let (in_use, trusted) = settled-upserted old c f at key source name rotation now settled h in
    (
      upserted (some c) key source name rotation now,
      lookup-upsert_key_known ring' key source name rotation now (some c) (rw same stored),
      in_use,
      trusted,
    )
