-- ===== src/Prelude/Filed.antt =====
-- Lists of ids filed under ids, where no list is stored empty: the maps of the label and the rule store.
use mathlib.Core.Path.{◌≡◌, refl, ap, ◌∙◌, sym, subst}
use mathlib.Core.Logic.{◌⊎◌, inl, inr}
use mathlib.Core.Bool.{Bool, ◌||◌}
use mathlib.Core.List.{List, [], ◌∷◌, ◌++◌}
use mathlib.Core.Option.{Option, none, some}
use native.Mathlib.Omega.{arith}
use crypt_mail.Prelude.Tests.{if◌then◌else◌, Bool-cases}
use crypt_mail.Prelude.Lists.{In, All, filter}
use crypt_mail.Prelude.Strings.{Text, text_eq, text_eq_iff, has_text, has_text-append}
use crypt_mail.Prelude.Maps.{
  Dict, lookup, insert, remove, keys, lookup-insert, lookup-remove, KeysDistinct,
}

abbrev pub Filed : Type 0
Filed = Dict (List Text)

abbrev pub ids_or_none : Option (List Text) → List Text
ids_or_none none = []
ids_or_none (some ids) = ids

-- filed[k] ?? []
abbrev pub filed_under : Text → Filed → List Text
filed_under k filed = ids_or_none (lookup k filed)

-- if (ids.length > 0) filed[k] = ids
unfoldable pub cons_filed : Text → List Text → Filed → Filed
cons_filed k [] rest = rest
cons_filed k (id ∷ ids) rest = (k, id ∷ ids) ∷ rest

-- The loop over the entries that keeps some of the ids of each, and no entry that is left empty.
unfoldable pub refile : (Text → Bool) → Filed → Filed
unfolding cons_filed
refile keep [] = []
refile keep ((k, ids) ∷ filed) = cons_filed k (filter keep ids) (refile keep filed)

-- if (ids.length > 0) filed[k] = ids; else delete filed[k]
unfoldable pub set_filed : Text → List Text → Filed → Filed
set_filed k [] filed = remove k filed
set_filed k (id ∷ ids) filed = insert k (id ∷ ids) filed

pub filed_under-set_filed :
    (j k : Text) (ids : List Text) (filed : Filed)
    → filed_under j (set_filed k ids filed) ≡ (if text_eq k j then ids else filed_under j filed)
unfolding set_filed
filed_under-set_filed j k [] filed =
    ap ids_or_none (lookup-remove k j filed)
    ∙ elim (Bool-cases (text_eq k j)) [ inl e ↦ simp e | inr n ↦ simp n ]
filed_under-set_filed j k (id ∷ ids) filed =
    ap ids_or_none (lookup-insert k j (id ∷ ids) filed)
    ∙ elim (Bool-cases (text_eq k j)) [ inl e ↦ simp e | inr n ↦ simp n ]

keys-cons_filed :
    (j k : Text) (ids : List Text) (filed : Filed)
    → In j (keys (cons_filed k ids filed))
    → (j ≡ k) ⊎ In j (keys filed)
unfolding cons_filed keys
keys-cons_filed j k [] filed h = inr h
keys-cons_filed j k (id ∷ ids) filed h = h

pub keys-refile :
    (keep : Text → Bool) (j : Text) (filed : Filed)
    → In j (keys (refile keep filed))
    → In j (keys filed)
unfolding refile keys
keys-refile keep j [] h = h
keys-refile keep j ((k, ids) ∷ filed) h =
    elim (keys-cons_filed j k (filter keep ids) (refile keep filed) h) [
      | inl e ↦ inl e
      | inr m ↦ inr (keys-refile keep j filed m)
    ]

cons_filed-KeysDistinct :
    (k : Text) (ids : List Text) (filed : Filed)
    → (In k (keys filed) → ⊥)
    → KeysDistinct filed
    → KeysDistinct (cons_filed k ids filed)
unfolding cons_filed keys
cons_filed-KeysDistinct k [] filed n d = d
cons_filed-KeysDistinct k (id ∷ ids) filed n d = (n, d)

pub refile-KeysDistinct :
    (keep : Text → Bool) (filed : Filed) → KeysDistinct filed → KeysDistinct (refile keep filed)
unfolding refile keys
refile-KeysDistinct keep [] d = d
refile-KeysDistinct keep ((k, ids) ∷ filed) d =
    cons_filed-KeysDistinct k (filter keep ids) (refile keep filed)
      (λ m. d.0 (keys-refile keep k filed m)) (refile-KeysDistinct keep filed d.1)

absent-filed_under : (k : Text) (filed : Filed) → (In k (keys filed) → ⊥) → filed_under k filed ≡ []
unfolding lookup keys
absent-filed_under k [] n = refl
absent-filed_under k ((j, ids) ∷ filed) n = elim (Bool-cases (text_eq j k)) [
  | inl e ↦ absurd (n (inl (sym ((text_eq_iff j k).0 e))))
  | inr m ↦ simp m (absent-filed_under k filed (λ i. n (inr i)))
]

filed_under-cons_filed :
    (j k : Text) (ids : List Text) (filed : Filed)
    → (In k (keys filed) → ⊥)
    → filed_under j (cons_filed k ids filed) ≡ (if text_eq k j then ids else filed_under j filed)
unfolding cons_filed lookup
filed_under-cons_filed j k [] filed n = elim (Bool-cases (text_eq k j)) [
  | inl e ↦
      simp e (
        subst (λ i. filed_under i filed ≡ []) ((text_eq_iff k j).0 e)
          (absent-filed_under k filed n))
  | inr m ↦ simp m
]
filed_under-cons_filed j k (id ∷ ids) filed n = elim (Bool-cases (text_eq k j)) [
  | inl e ↦ simp e
  | inr m ↦ simp m
]

pub filed_under-refile :
    (keep : Text → Bool) (j : Text) (filed : Filed)
    → KeysDistinct filed
    → filed_under j (refile keep filed) ≡ filter keep (filed_under j filed)
unfolding refile keys lookup
filed_under-refile keep j [] d = refl
filed_under-refile keep j ((k, ids) ∷ filed) d =
    filed_under-cons_filed j k (filter keep ids) (refile keep filed)
      (λ m. d.0 (keys-refile keep k filed m))
    ∙ elim (Bool-cases (text_eq k j)) [
      | inl e ↦ simp e
      | inr m ↦ simp m (filed_under-refile keep j filed d.1)
    ]

-- No list is stored empty, and every id filed has a property.
abbrev pub IsFiled : (Text → Type 0) → Filed → Type 0
IsFiled P = All (λ (e : Text × List Text). (e.1 ≡ [] → ⊥) × All P e.1)

-- `for (const id of add) if (!next.includes(id)) next.push(id)`
unfoldable pub push_all : List Text → List Text → List Text
push_all next [] = next
push_all next (id ∷ add) = push_all (if has_text id next then next else next ++ id ∷ []) add

pub has_text-push_all :
    (l : Text) (next add : List Text)
    → has_text l (push_all next add) ≡ (has_text l next || has_text l add)
unfolding push_all has_text
has_text-push_all l next [] = ground arith
has_text-push_all l next (id ∷ add) =
    has_text-push_all l (if has_text id next then next else next ++ id ∷ []) add
    ∙ ground (
      arith,
      has_text-append l next (id ∷ []),
      text_eq_iff id l,
      λ (e : id ≡ l). ap (λ x. has_text x next) e,
    )

-- [...new Set(ids)]
abbrev pub unique : List Text → List Text
unique ids = push_all [] ids

pub has_text-unique : (l : Text) (ids : List Text) → has_text l (unique ids) ≡ has_text l ids
unfolding has_text
has_text-unique l ids = has_text-push_all l [] ids
