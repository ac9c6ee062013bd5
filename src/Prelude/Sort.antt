-- ===== src/Prelude/Sort.antt =====
-- Array.prototype.sort with a comparator: a stable sort, by `le a b` for a comparison that is not
-- positive.
use Prim.Native.Nat.{suc}
use mathlib.Core.Path.{◌≡◌, refl, sym, subst}
use mathlib.Core.Logic.{inl, inr}
use mathlib.Core.Bool.{Bool, true, false}
use mathlib.Core.List.{List, [], ◌∷◌}
use native.Mathlib.Omega.{arith}
use crypt_mail.Prelude.Tests.{if◌then◌else◌, Bool-cases}
use crypt_mail.Prelude.Lists.{In, All, All-In, All-of, filter, length, In-filter}

module _ {ℓ} {A : Type ℓ} (le : A → A → Bool) where
  unfoldable pub insert_by : A → List A → List A
  insert_by x [] = x ∷ []
  insert_by x (y ∷ ys) = if le x y then x ∷ y ∷ ys else y ∷ insert_by x ys

  unfoldable pub sort_by : List A → List A
  unfolding insert_by
  sort_by [] = []
  sort_by (x ∷ xs) = insert_by x (sort_by xs)

  abbrev pub IsSorted : List A → Type 0
  IsSorted [] = Unit
  IsSorted (x ∷ xs) = All (λ y. le x y ≡ true) xs × IsSorted xs

-- A comparison that sorts: any two compare, and it is transitive.
pub record IsPreorder {ℓ} {A : Type ℓ} (le : A → A → Bool) : Type ℓ where
  pub total : (a b : A) → le a b ≡ false → le b a ≡ true
  pub trans : (a b c : A) → le a b ≡ true → le b c ≡ true → le a c ≡ true

module _ {A : Type 0} (le : A → A → Bool) where
  In-insert_by : (a x : A) (ys : List A) → In a (insert_by le x ys) → In a (x ∷ ys)
  unfolding insert_by
  In-insert_by a x [] h = h
  In-insert_by a x (y ∷ ys) h = ground (arith, In-insert_by a x ys)

  insert_by-In : (a x : A) (ys : List A) → In a (x ∷ ys) → In a (insert_by le x ys)
  unfolding insert_by
  insert_by-In a x [] h = h
  insert_by-In a x (y ∷ ys) h = ground (arith, insert_by-In a x ys)

  -- Sorting keeps exactly the elements.
  pub In-sort_by : (a : A) (xs : List A) → In a (sort_by le xs) → In a xs
  unfolding sort_by
  In-sort_by a [] h = h
  In-sort_by a (x ∷ xs) h = elim (In-insert_by a x (sort_by le xs) h) [
    | inl e ↦ inl e
    | inr m ↦ inr (In-sort_by a xs m)
  ]

  pub sort_by-In : (a : A) (xs : List A) → In a xs → In a (sort_by le xs)
  unfolding sort_by
  sort_by-In a [] h = h
  sort_by-In a (x ∷ xs) (inl e) = insert_by-In a x (sort_by le xs) (inl e)
  sort_by-In a (x ∷ xs) (inr m) = insert_by-In a x (sort_by le xs) (inr (sort_by-In a xs m))

  length-insert_by : (x : A) (ys : List A) → length (insert_by le x ys) ≡ suc (length ys)
  unfolding insert_by
  length-insert_by x [] = refl
  length-insert_by x (y ∷ ys) = ground (arith, length-insert_by x ys)

  pub length-sort_by : (xs : List A) → length (sort_by le xs) ≡ length xs
  unfolding sort_by
  length-sort_by [] = refl
  length-sort_by (x ∷ xs) = omega (arith, length-insert_by x (sort_by le xs), length-sort_by xs)

  module _ (order : IsPreorder le) where
    insert_by-IsSorted : (x : A) (ys : List A) → IsSorted le ys → IsSorted le (insert_by le x ys)
    unfolding insert_by
    insert_by-IsSorted x [] s = (tt, tt)
    insert_by-IsSorted x (y ∷ ys) s = elim (Bool-cases (le x y)) [
      | inl e ↦ rw e (
        (e, All-of _ ys (λ z m. order.trans x y z e (All-In (λ w. le y w ≡ true) ys s.0 z m))),
        s,
      )
      | inr n ↦ rw n (
        All-of _ (insert_by le x ys) (λ z m. elim (In-insert_by z x ys m) [
          | inl q ↦ subst (λ w. le y w ≡ true) (sym q) (order.total x y n)
          | inr r ↦ All-In (λ w. le y w ≡ true) ys s.0 z r
        ]),
        insert_by-IsSorted x ys s.1,
      )
    ]

    pub sort_by-IsSorted : (xs : List A) → IsSorted le (sort_by le xs)
    unfolding sort_by
    sort_by-IsSorted [] = tt
    sort_by-IsSorted (x ∷ xs) = insert_by-IsSorted x (sort_by le xs) (sort_by-IsSorted xs)

  -- Filtering keeps the order.
  pub filter-IsSorted : (p : A → Bool) (xs : List A) → IsSorted le xs → IsSorted le (filter p xs)
  filter-IsSorted p [] s = tt
  filter-IsSorted p (x ∷ xs) s = elim (Bool-cases (p x)) [
    | inl e ↦ rw e (
      All-of _ (filter p xs) (λ z m. All-In (λ w. le x w ≡ true) xs s.0 z (In-filter p z xs m).0),
      filter-IsSorted p xs s.1,
    )
    | inr n ↦ rw n (filter-IsSorted p xs s.1)
  ]
