-- ===== src/Keyring/Choose/Refusing.antt =====
-- When a choice finds no key to switch to.
use crypt_mail.Prelude.{
  ◌≡◌, refl, inl, inr, Bool, false, ◌||◌, Option, none, some, List, [], ◌∷◌, Bool-cases, any, find?,
  Text, text_eq,
}
use crypt_mail.Keyring.{
  OtherKey, ContactKey, Keyring, or_nil, has_fingerprint, switch_to, choose_from,
}

-- The fingerprint is the one in use or that of another key of the entry.
abbrev pub holds : ContactKey → Text → Bool
holds c f = text_eq c.fingerprint f || any (has_fingerprint f) (or_nil c.other_keys)

pub switch_to-none :
    (ring : Keyring) (old : ContactKey) (chosen : Option OtherKey) (at : Text)
    → switch_to ring old chosen at ≡ none
    → chosen ≡ none
switch_to-none ring old none at h = refl
switch_to-none ring old (some k) at h = cc

pub find?-none :
    (f : Text) (ks : List OtherKey)
    → find? (has_fingerprint f) ks ≡ none
    → any (has_fingerprint f) ks ≡ false
find?-none f [] h = refl
find?-none f (k ∷ ks) h = elim (Bool-cases (text_eq k.fingerprint f)) [
  | inl e ↦ absurd (cc (simp e at h))
  | inr n ↦ simp n (find?-none f ks (simp n at h))
]

pub none-find? :
    (f : Text) (ks : List OtherKey)
    → any (has_fingerprint f) ks ≡ false
    → find? (has_fingerprint f) ks ≡ none
none-find? f [] h = refl
none-find? f (k ∷ ks) h = elim (Bool-cases (text_eq k.fingerprint f)) [
  | inl e ↦ absurd (cc (simp e at h))
  | inr n ↦ simp n (none-find? f ks (simp n at h))
]

pub choose_from-none :
    (ring : Keyring) (old : ContactKey) (f at : Text)
    → choose_from ring (some old) f at ≡ none
    → holds old f ≡ false
choose_from-none ring old f at h = elim (Bool-cases (text_eq old.fingerprint f)) [
  | inl same ↦ absurd (cc (simp same at h))
  | inr other ↦
      simp other
        (find?-none f (or_nil old.other_keys) (switch_to-none ring old _ at (simp other at h)))
]

pub none-choose_from :
    (ring : Keyring) (old : ContactKey) (f at : Text)
    → holds old f ≡ false
    → choose_from ring (some old) f at ≡ none
none-choose_from ring old f at h = elim (Bool-cases (text_eq old.fingerprint f)) [
  | inl same ↦ absurd (cc (simp same at h))
  | inr other ↦ simp (other, none-find? f (or_nil old.other_keys) (simp other at h))
]
