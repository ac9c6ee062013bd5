-- ===== src/Prelude/Maps.antt =====
-- A plain object used as a map from ids, in insertion order: `o[k]`, `{ ...o, [k]: v }`, `delete o[k]`.
-- Writing to a key that is there keeps its place. No key is an array index or a name of
-- `Object.prototype`, which JavaScript would order or look up differently.
use mathlib.Core.Path.{◌≡◌, refl, ap, sym, subst}
use mathlib.Core.Logic.{◌⊎◌, inl, inr}
use mathlib.Core.List.{List, [], ◌∷◌}
use mathlib.Core.Option.{Option, none, some}
use native.Mathlib.Omega.{arith}
use crypt_mail.Prelude.Tests.{if◌then◌else◌, Bool-cases}
use crypt_mail.Prelude.Lists.{In}
use crypt_mail.Prelude.Strings.{Text, text_eq, text_eq_iff, text_eq_refl}

abbrev pub Dict {ℓ} : Type ℓ → Type ℓ
Dict V = List (Text × V)

module _ {ℓ} {V : Type ℓ} where
  unfoldable pub lookup : Text → Dict V → Option V
  lookup k [] = none
  lookup k ((j, v) ∷ m) = if text_eq j k then some v else lookup k m

  unfoldable pub insert : Text → V → Dict V → Dict V
  insert k v [] = (k, v) ∷ []
  insert k v ((j, w) ∷ m) = if text_eq j k then (j, v) ∷ m else (j, w) ∷ insert k v m

  unfoldable pub remove : Text → Dict V → Dict V
  remove k [] = []
  remove k ((j, v) ∷ m) = let rest = remove k m in if text_eq j k then rest else (j, v) ∷ rest

  -- Object.values(o), Object.keys(o)
  unfoldable pub values : Dict V → List V
  values [] = []
  values ((j, v) ∷ m) = v ∷ values m

  unfoldable pub keys : Dict V → List Text
  keys [] = []
  keys ((j, v) ∷ m) = j ∷ keys m

module _ {ℓ} {V : Type ℓ} where
  pub lookup-insert :
      (k j : Text) (v : V) (m : Dict V)
      → lookup j (insert k v m) ≡ (if text_eq k j then some v else lookup j m)
  unfolding lookup insert
  lookup-insert k j v [] = refl
  lookup-insert k j v ((i, w) ∷ m) =
      ground (arith, text_eq_iff k j, text_eq_iff i k, text_eq_iff i j, lookup-insert k j v m)

  pub lookup-remove :
      (k j : Text) (m : Dict V) → lookup j (remove k m) ≡ (if text_eq k j then none else lookup j m)
  unfolding lookup remove
  lookup-remove k j [] = ground arith
  lookup-remove k j ((i, w) ∷ m) =
      ground (arith, text_eq_iff k j, text_eq_iff i k, text_eq_iff i j, lookup-remove k j m)

  pub lookup-insert_self : (k : Text) (v : V) (m : Dict V) → lookup k (insert k v m) ≡ some v
  lookup-insert_self k v m = simp (lookup-insert, text_eq_refl)

  -- Every key once.
  abbrev pub KeysDistinct : Dict V → Type 0
  KeysDistinct [] = Unit
  KeysDistinct ((j, v) ∷ m) = (In j (keys m) → ⊥) × KeysDistinct m

module _ {ℓ} {V : Type ℓ} where
  pub keys-insert :
      (j k : Text) (v : V) (m : Dict V) → In j (keys (insert k v m)) → (j ≡ k) ⊎ In j (keys m)
  unfolding keys insert
  keys-insert j k v [] h = ground arith
  keys-insert j k v ((i, w) ∷ m) h = ground (arith, keys-insert j k v m, text_eq_iff i k)

  pub keys-remove : (j k : Text) (m : Dict V) → In j (keys (remove k m)) → In j (keys m)
  unfolding keys remove
  keys-remove j k [] h = absurd h
  keys-remove j k ((i, w) ∷ m) h = ground (arith, keys-remove j k m)

  pub insert-KeysDistinct :
      (k : Text) (v : V) (m : Dict V) → KeysDistinct m → KeysDistinct (insert k v m)
  unfolding insert keys
  insert-KeysDistinct k v [] d = ((λ h. h), tt)
  insert-KeysDistinct k v ((i, w) ∷ m) d = elim (Bool-cases (text_eq i k)) [
    | inl e ↦ rw e d
    | inr n ↦ rw n (
      (λ h. ground (arith, keys-insert i k v m h, text_eq_iff i k, d.0)),
      insert-KeysDistinct k v m d.1,
    )
  ]

  pub remove-KeysDistinct : (k : Text) (m : Dict V) → KeysDistinct m → KeysDistinct (remove k m)
  unfolding remove keys
  remove-KeysDistinct k [] d = tt
  remove-KeysDistinct k ((i, w) ∷ m) d = elim (Bool-cases (text_eq i k)) [
    | inl e ↦ rw e (remove-KeysDistinct k m d.1)
    | inr n ↦ rw n ((λ h. d.0 (keys-remove i k m h)), remove-KeysDistinct k m d.1)
  ]

module _ {V : Type 0} where
  pub lookup-In : (k : Text) (v : V) (m : Dict V) → lookup k m ≡ some v → In (k, v) m
  unfolding lookup
  lookup-In k v [] h = cc
  lookup-In k v ((j, w) ∷ m) h = elim (Bool-cases (text_eq j k)) [
    | inl e ↦ inl (ground (arith, text_eq_iff j k))
    | inr n ↦ inr (lookup-In k v m (rw n at h))
  ]

  pub In-values : (k : Text) (v : V) (m : Dict V) → In (k, v) m → In v (values m)
  unfolding values
  In-values k v [] h = absurd h
  In-values k v ((j, w) ∷ m) (inl e) = inl (ap (λ p. p.1) e)
  In-values k v ((j, w) ∷ m) (inr r) = inr (In-values k v m r)

  pub lookup-values : (k : Text) (v : V) (m : Dict V) → lookup k m ≡ some v → In v (values m)
  lookup-values k v m h = In-values k v m (lookup-In k v m h)

  -- A value of the dictionary stands under some key.
  pub values-In : (v : V) (m : Dict V) → In v (values m) → (k : Text) × In (k, v) m
  unfolding values
  values-In v [] h = absurd h
  values-In v ((j, w) ∷ m) (inl e) = (j, inl (ap (λ x. (j, x)) e))
  values-In v ((j, w) ∷ m) (inr r) = let (k, p) = values-In v m r in (k, inr p)

  pub In-keys : (k : Text) (v : V) (m : Dict V) → In (k, v) m → In k (keys m)
  unfolding keys
  In-keys k v [] h = absurd h
  In-keys k v ((j, w) ∷ m) (inl e) = inl (ap (λ p. p.0) e)
  In-keys k v ((j, w) ∷ m) (inr r) = inr (In-keys k v m r)

  pub In-lookup :
      (k : Text) (v : V) (m : Dict V) → KeysDistinct m → In (k, v) m → lookup k m ≡ some v
  unfolding lookup keys
  In-lookup k v [] d h = absurd h
  In-lookup k v ((j, w) ∷ m) d (inl e) =
      cc (text_eq_refl j, ap (λ (p : Text × V). p.0) e, ap (λ (p : Text × V). p.1) e)
  In-lookup k v ((j, w) ∷ m) d (inr r) = elim (Bool-cases (text_eq j k)) [
    | inl e ↦
        absurd (d.0 (subst (λ x. In x (keys m)) (sym ((text_eq_iff j k).0 e)) (In-keys k v m r)))
    | inr n ↦ rw n (In-lookup k v m d.1 r)
  ]
