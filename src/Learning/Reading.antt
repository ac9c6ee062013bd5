-- ===== src/Learning/Reading.antt =====
-- What an Autocrypt header can teach, and under which address it is filed.
use crypt_mail.Prelude.{
  ◌≡◌, refl, sym, ap, ◌∙◌, subst, inl, inr, Bool, true, false, ◌||◌, Option, none, some, List, [],
  ◌∷◌, map, if◌then◌else◌, Bool-cases, some_injective, any, find?, Text, text_eq, text_eq_iff, trim,
  includes, is_empty, has_text, lookup, lookup-insert, Locale,
}
use crypt_mail.Keyring.{
  OtherKey, or_nil, has_fingerprint, ContactKey, Keyring, PublicKeyInfo, find_key, choose_key,
  upserted, upsert_key, autocrypt, no_evidence,
}
use crypt_mail.Discovery.{armor_begin}
use crypt_mail.Keyring.Choose.{IsSettled, choose_key-IsSettled, choose_key-refused}
use crypt_mail.Keyring.Choose.Refusing.{holds}
use crypt_mail.Learning.{Learner, names_other, autocrypt_key_from, harvest_autocrypt}
use crypt_mail.Learning.Marking.{fingerprints_of, known_fingerprint, or_no_text, mark_verified}
use crypt_mail.Learning.Header.{addr_in}

-- A header that names another address than the sender's teaches nothing, unless it holds an armored
-- block, which carries no address: the keyring stays as it was.
pub harvest_autocrypt-names_other :
    (loc : Locale) (learner : Learner) (ring : Keyring) (from header : Text) (name : Option Text)
    → includes (trim header) armor_begin ≡ false
    → names_other loc learner (addr_in true (trim header)) from ≡ true
    → harvest_autocrypt loc learner ring from (some header) name ≡ ring
unfolding harvest_autocrypt autocrypt_key_from
harvest_autocrypt-names_other loc learner ring from header name n o =
    elim (Bool-cases (is_empty header)) [
      | inl e ↦ simp e
      | inr f ↦ elim (Bool-cases (is_empty (trim header))) [
        | inl e ↦ simp (f, e)
        | inr g ↦ simp (f, g, n, o)
      ]
    ]

-- A key learned from a header is filed under the address that the key itself names, and under no other:
-- the entry of that address is the one that learning the key writes, and every other entry stays,
-- whichever address the message came from.
pub harvest_autocrypt-filed :
    (loc : Locale) (learner : Learner) (ring : Keyring) (from header armored : Text)
    (name : Option Text) (info : PublicKeyInfo) (email : Text)
    → is_empty header ≡ false
    → autocrypt_key_from loc learner header from ≡ some armored
    → learner.import_public_key armored ≡ some info
    → lookup email (harvest_autocrypt loc learner ring from (some header) name) ≡ (
        if text_eq info.email email
        then some (upserted (lookup info.email ring) info autocrypt name no_evidence learner.now)
        else lookup email ring)
unfolding harvest_autocrypt upsert_key
harvest_autocrypt-filed loc learner ring from header armored name info email n k p =
    simp (n, k, p)
      (lookup-insert info.email email
        (upserted (lookup info.email ring) info autocrypt name no_evidence learner.now) ring)

find?-passes : (p : Text → Bool) (xs : List Text) (x : Text) → find? p xs ≡ some x → p x ≡ true
find?-passes p [] x h = absurd (cc h)
find?-passes p (y ∷ xs) x h = elim (Bool-cases (p y)) [
  | inl e ↦ subst (λ z. p z ≡ true) (some_injective y x (rw e at h)) e
  | inr n ↦ find?-passes p xs x (rw n at h)
]

any-has_text :
    (f : Text) (others : List OtherKey)
    → any (has_fingerprint f) others ≡ has_text f (map (λ (k : OtherKey). k.fingerprint) others)
unfolding has_text
any-has_text f [] = refl
any-has_text f (k ∷ others) = ap (λ b. text_eq k.fingerprint f || b) (any-has_text f others)

holds-has_text :
    (loc : Locale) (normalise : Text → Text) (old : ContactKey) (f : Text)
    → holds old f ≡ has_text f (fingerprints_of loc normalise old)
unfolding has_text
holds-has_text loc normalise old f =
    ap (λ b. text_eq old.fingerprint f || b) (any-has_text f (or_nil old.other_keys))

chosen-IsSettled :
    (loc : Locale) (normalise : Text → Text) (ring after : Keyring) (email compared at : Text)
    (old : ContactKey) (known : Option Text)
    → find_key loc ring email ≡ some old
    → has_text [] (fingerprints_of loc normalise old) ≡ false
    → find? (λ fp. text_eq (normalise fp) (normalise compared)) (fingerprints_of loc normalise old)
      ≡ known
    → choose_key loc ring email (or_no_text loc normalise known) at ≡ some after
    → (c : ContactKey) × (f : Text) × (lookup old.email after ≡ some c)
      × IsSettled old f at c
      × (normalise f ≡ normalise compared)
chosen-IsSettled loc normalise ring after email compared at old none found n k m = absurd (
    cc (
      sym (
        (choose_key-refused loc ring email [] at).1 (λ c same.
          subst (λ (d : ContactKey). holds d [] ≡ false) (some_injective old c (sym found ∙ same))
            (holds-has_text loc normalise old [] ∙ n)))
      ∙ m))
chosen-IsSettled loc normalise ring after email compared at old (some f) found n k m =
    let (c, l, settled) = choose_key-IsSettled loc ring after email f at old found m in
    (
      c,
      f,
      l,
      settled,
      (text_eq_iff (normalise f) (normalise compared)).0 (
          find?-passes (λ fp. text_eq (normalise fp) (normalise compared))
            (fingerprints_of loc normalise old) f k),
    )

-- Marking a key as compared puts exactly a compared key in use: when it succeeds, the key then in use is the
-- one that was on file under a fingerprint equal to the compared one up to its writing, whether it was in use
-- before or among the others: its armored text and user id are the ones on file. It is `verified` as of that
-- moment, no other key of the address is left undecided, and every other key on file is still listed. No key
-- on file has an empty fingerprint.
pub mark_verified-IsSettled :
    (loc : Locale) (normalise : Text → Text) (ring after : Keyring) (email compared at : Text)
    (old : ContactKey)
    → find_key loc ring email ≡ some old
    → has_text [] (fingerprints_of loc normalise old) ≡ false
    → mark_verified loc normalise ring email compared at ≡ some after
    → (c : ContactKey) × (f : Text) × (lookup old.email after ≡ some c)
      × IsSettled old f at c
      × (normalise f ≡ normalise compared)
unfolding mark_verified known_fingerprint
mark_verified-IsSettled loc normalise ring after email compared at old f n m =
    chosen-IsSettled loc normalise ring after email compared at old
      (known_fingerprint loc normalise old compared) f n refl (rw f at m)
