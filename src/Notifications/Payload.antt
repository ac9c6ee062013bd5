-- ===== src/Notifications/Payload.antt =====
-- Which pushes are accepted.
use crypt_mail.Prelude.{
  ◌≡◌, refl, ap, subst, ◌⊎◌, inl, inr, true, Option, none, some, List, [], ◌∷◌, arith, undefined,
  null, boolean, number, odd_number, text, array, object, ==_iff, Bool-cases, some_injective, In,
  Text, codes, text_eq_iff, text_eq_refl, text_leb, lookup, keys, sort_by, sort_by-In, Value,
}
use crypt_mail.Notifications.{
  Payload, payload_keys, same_texts, is_account_token, is_version, is_sync, account_token,
  parse_relay_payload,
}

same_texts-eq : (ss ts : List Text) → same_texts ss ts ≡ true → ss ≡ ts
same_texts-eq [] [] h = refl
same_texts-eq [] (t ∷ ts) h = absurd (cc h)
same_texts-eq (s ∷ ss) [] h = absurd (cc h)
same_texts-eq (s ∷ ss) (t ∷ ts) h = ground (arith, text_eq_iff s t, same_texts-eq ss ts)

same_texts_refl : (ts : List Text) → same_texts ts ts ≡ true
same_texts_refl [] = refl
same_texts_refl (t ∷ ts) = ground (arith, text_eq_refl t, same_texts_refl ts)

-- Keys that sort to a list of three are those three.
sorted_keys :
    (payload : Payload)
    → same_texts (sort_by text_leb (keys payload)) payload_keys ≡ true
    → (k : Text) → In k (keys payload)
    → In k payload_keys
sorted_keys payload h k i =
    subst (In k) (same_texts-eq (sort_by text_leb (keys payload)) payload_keys h)
      (sort_by-In text_leb k (keys payload) i)

account_token-some :
    (value : Option (Value (Unit {0}))) (a : Text)
    → account_token value ≡ some a
    → (value ≡ some (text a)) × (is_account_token a ≡ true)
account_token-some none a h = absurd (cc h)
account_token-some (some undefined) a h = absurd (cc h)
account_token-some (some null) a h = absurd (cc h)
account_token-some (some (boolean b)) a h = absurd (cc h)
account_token-some (some (number n)) a h = absurd (cc h)
account_token-some (some odd_number) a h = absurd (cc h)
account_token-some (some (text t)) a h = elim (Bool-cases (is_account_token t)) [
  | inl e ↦
      let same = some_injective t a (simp e at h) in
      (ap (λ x. some (text x)) same, subst (λ x. is_account_token x ≡ true) same e)
  | inr n ↦ absurd (cc (simp n at h))
]
account_token-some (some array) a h = absurd (cc h)
account_token-some (some (object o)) a h = absurd (cc h)

is_version-cases :
    (value : Option (Value (Unit {0})))
    → is_version value ≡ true
    → (value ≡ some (number 1)) ⊎ (value ≡ some (text (codes "1")))
is_version-cases none h = absurd (cc h)
is_version-cases (some undefined) h = absurd (cc h)
is_version-cases (some null) h = absurd (cc h)
is_version-cases (some (boolean b)) h = absurd (cc h)
is_version-cases (some (number n)) h = inl (ap (λ x. some (number x)) ((==_iff n 1).0 h))
is_version-cases (some odd_number) h = absurd (cc h)
is_version-cases (some (text t)) h = inr (ap (λ x. some (text x)) ((text_eq_iff t (codes "1")).0 h))
is_version-cases (some array) h = absurd (cc h)
is_version-cases (some (object o)) h = absurd (cc h)

is_sync-some :
    (value : Option (Value (Unit {0}))) → is_sync value ≡ true → value ≡ some (text (codes "sync"))
is_sync-some none h = absurd (cc h)
is_sync-some (some undefined) h = absurd (cc h)
is_sync-some (some null) h = absurd (cc h)
is_sync-some (some (boolean b)) h = absurd (cc h)
is_sync-some (some (number n)) h = absurd (cc h)
is_sync-some (some odd_number) h = absurd (cc h)
is_sync-some (some (text t)) h = ap (λ x. some (text x)) ((text_eq_iff t (codes "sync")).0 h)
is_sync-some (some array) h = absurd (cc h)
is_sync-some (some (object o)) h = absurd (cc h)

-- What a push has to be for its account token to be taken.
abbrev pub IsContract : Payload → Text → Type 0
IsContract payload a =
    ((k : Text) → In k (keys payload) → In k payload_keys)
    × ((lookup (codes "v") payload ≡ some (number 1))
        ⊎ (lookup (codes "v") payload ≡ some (text (codes "1"))))
    × (lookup (codes "t") payload ≡ some (text (codes "sync")))
    × (lookup (codes "a") payload ≡ some (text a))
    × (is_account_token a ≡ true)

-- A push is accepted only if it is an object that has no key but v, t and a, whose v is 1 or "1", whose
-- t is "sync" and whose a is an account token, which is what the app takes from it.
pub parse_relay_payload-IsContract :
    (data_map : Value Payload) (a : Text)
    → parse_relay_payload data_map ≡ some a
    → (payload : Payload) × (data_map ≡ object payload) × IsContract payload a
unfolding parse_relay_payload
parse_relay_payload-IsContract undefined a h = absurd (cc h)
parse_relay_payload-IsContract null a h = absurd (cc h)
parse_relay_payload-IsContract (boolean b) a h = absurd (cc h)
parse_relay_payload-IsContract (number n) a h = absurd (cc h)
parse_relay_payload-IsContract odd_number a h = absurd (cc h)
parse_relay_payload-IsContract (text t) a h = absurd (cc h)
parse_relay_payload-IsContract array a h = absurd (cc h)
parse_relay_payload-IsContract (object payload) a h =
    elim (Bool-cases (same_texts (sort_by text_leb (keys payload)) payload_keys)) [
      | inr n ↦ absurd (cc (simp n at h))
      | inl k ↦ elim (Bool-cases (is_version (lookup (codes "v") payload))) [
        | inr n ↦ absurd (cc (simp (k, n) at h))
        | inl v ↦ elim (Bool-cases (is_sync (lookup (codes "t") payload))) [
          | inr n ↦ absurd (cc (simp (k, v, n) at h))
          | inl t ↦
              let (e, token) =
                account_token-some (lookup (codes "a") payload) a (simp (k, v, t) at h) in
              (
                payload,
                refl,
                (
                  sorted_keys payload k,
                  is_version-cases (lookup (codes "v") payload) v,
                  is_sync-some (lookup (codes "t") payload) t,
                  e,
                  token,
                ),
              )
        ]
      ]
    ]
