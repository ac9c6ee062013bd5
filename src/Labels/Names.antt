-- ===== src/Labels/Names.antt =====
-- No two labels read the same.
use crypt_mail.Prelude.{
  ◌≡◌, refl, sym, ap, ◌∙◌, ◌≢◌, inl, inr, Bool, true, false, Option, none, some, List, [], ◌∷◌,
  arith, Bool-cases, some_injective, any, In, Text, text_eq, text_eq_iff, text_eq_sym, Dict, lookup,
  insert, remove, values, lookup-insert, lookup-remove, lookup-values, Locale,
}
use crypt_mail.Labels.{
  Label, LabelState, clean_label_name, NameProblem, takes_name, label_name_problem, unless_problem,
  create_label, renamed, rename_label, known, delete_label,
}
use crypt_mail.Labels.Shape.{IsLabelState, Leaves}

-- Two labels whose names agree in lower case are one label.
abbrev pub HasUniqueNames : Locale → Dict Label → Type 0
HasUniqueNames loc labels =
    (i j : Text) (a b : Label)
    → lookup i labels ≡ some a
    → lookup j labels ≡ some b
    → loc.lower a.name ≡ loc.lower b.name
    → i ≡ j

any-In :
    {A : Type 0} (p : A → Bool) (a : A) (xs : List A) → In a xs → any p xs ≡ false → p a ≡ false
any-In p a [] h f = absurd h
any-In p a (x ∷ xs) (inl e) f = elim (Bool-cases (p x)) [
  | inl t ↦ absurd (cc (simp t at f))
  | inr n ↦ ap p e ∙ n
]
any-In p a (x ∷ xs) (inr m) f = elim (Bool-cases (p x)) [
  | inl t ↦ absurd (cc (simp t at f))
  | inr n ↦ any-In p a xs m (simp n at f)
]

-- A name that is not refused is taken by no other label.
free_name :
    (loc : Locale) (state : LabelState) (name : Text) (except : Option Text) (i : Text) (a : Label)
    → label_name_problem loc state name except ≡ none
    → lookup i state.labels ≡ some a
    → takes_name loc (clean_label_name name) except a ≡ false
unfolding label_name_problem
free_name loc state name except i a free found =
    any-In (takes_name loc (clean_label_name name) except) a (values state.labels)
      (lookup-values i a state.labels found) (ground arith)

-- Writing a label under `id` whose name no other label has keeps names unique.
insert-HasUniqueNames :
    (loc : Locale) (labels : Dict Label) (id : Text) (label : Label)
    → HasUniqueNames loc labels
    → ((i : Text) (a : Label)
        → lookup i labels ≡ some a
        → text_eq id i ≡ false
        → loc.lower a.name ≢ loc.lower label.name)
    → HasUniqueNames loc (insert id label labels)
insert-HasUniqueNames loc labels id label u free i j a b at_i at_j same =
    elim (Bool-cases (text_eq id i)) [
      | inl ei ↦ elim (Bool-cases (text_eq id j)) [
        | inl ej ↦ sym ((text_eq_iff id i).0 ei) ∙ (text_eq_iff id j).0 ej
        | inr nj ↦ absurd (
            free j b (old j b nj at_j) nj
              (sym same ∙ ap (λ (x : Label). loc.lower x.name) (sym (new i a ei at_i))))
      ]
      | inr ni ↦ elim (Bool-cases (text_eq id j)) [
        | inl ej ↦ absurd (
            free i a (old i a ni at_i) ni
              (same ∙ ap (λ (x : Label). loc.lower x.name) (sym (new j b ej at_j))))
        | inr nj ↦ u i j a b (old i a ni at_i) (old j b nj at_j) same
      ]
    ]
  where
    new :
        (k : Text) (c : Label)
        → text_eq id k ≡ true
        → lookup k (insert id label labels) ≡ some c
        → label ≡ c
    new k c e found =
        some_injective label c (sym (simp e at (lookup-insert id k label labels)) ∙ found)

    old :
        (k : Text) (c : Label)
        → text_eq id k ≡ false
        → lookup k (insert id label labels) ≡ some c
        → lookup k labels ≡ some c
    old k c n found = sym (simp n at (lookup-insert id k label labels)) ∙ found

created_unique :
    (loc : Locale) (state : LabelState) (name id now : Text) (problem : Option NameProblem)
    → HasUniqueNames loc state.labels
    → label_name_problem loc state name none ≡ problem
    → Leaves
        (λ s. HasUniqueNames loc s.labels)
        (unless_problem problem (record state {
          labels =
              insert id
                (record { id = id; name = clean_label_name name; created_at = now })
                state.labels;
        }))
created_unique loc state name id now (some problem) u free = tt
created_unique loc state name id now none u free =
    insert-HasUniqueNames loc state.labels id
      (record { id = id; name = clean_label_name name; created_at = now }) u
      (λ i a found n same. cc (
        free_name loc state name none i a free found,
        (text_eq_iff (loc.lower a.name) (loc.lower (clean_label_name name))).1 same,
      ))

renamed_unique :
    (loc : Locale) (state : LabelState) (id name : Text) (label : Label)
    (problem : Option NameProblem)
    → IsLabelState state
    → HasUniqueNames loc state.labels
    → label_name_problem loc state name (some id) ≡ problem
    → Leaves
        (λ s. HasUniqueNames loc s.labels)
        (unless_problem problem (record state {
          labels = insert id (record label { name = clean_label_name name }) state.labels;
        }))
renamed_unique loc state id name label (some problem) v u free = tt
renamed_unique loc state id name label none v u free =
    insert-HasUniqueNames loc state.labels id (record label { name = clean_label_name name }) u
      (λ i a found n same.
        other_takes i a n (v.keyed i a found) (free_name loc state name (some id) i a free found)
          same)
  where
    other_takes :
        (i : Text) (a : Label)
        → text_eq id i ≡ false
        → a.id ≡ i
        → takes_name loc (clean_label_name name) (some id) a ≡ false
        → loc.lower a.name ≢ loc.lower (clean_label_name name)
    other_takes i a n keyed untaken same = cc (
      n,
      untaken,
      (text_eq_iff (loc.lower a.name) (loc.lower (clean_label_name name))).1 same,
      text_eq_sym id a.id,
      ap (text_eq id) keyed,
    )

rename_unique :
    (loc : Locale) (state : LabelState) (id name : Text) (entry : Option Label)
    → IsLabelState state
    → HasUniqueNames loc state.labels
    → Leaves (λ s. HasUniqueNames loc s.labels) (renamed loc state id name entry)
rename_unique loc state id name none v u = u
rename_unique loc state id name (some label) v u =
    renamed_unique loc state id name label (label_name_problem loc state name (some id)) v u refl

delete_unique :
    (loc : Locale) (state : LabelState) (id : Text)
    → HasUniqueNames loc state.labels
    → HasUniqueNames loc (delete_label state id).labels
unfolding delete_label
delete_unique loc state id u = elim (Bool-cases (known state.labels id)) [
  | inr absent ↦ rw absent u
  | inl there ↦
      rw there (λ i j a b at_i at_j same. u i j a b (still i a at_i) (still j b at_j) same)
]
  where
    still :
        (k : Text) (c : Label)
        → lookup k (remove id state.labels) ≡ some c
        → lookup k state.labels ≡ some c
    still k c found = ground (arith, lookup-remove id k state.labels)

-- From a state of the right shape whose labels have names that differ in lower case, creating,
-- renaming and deleting labels lead to such names again.
pub changes-HasUniqueNames :
    (loc : Locale) (state : LabelState) (name id now : Text)
    → IsLabelState state
    → HasUniqueNames loc state.labels
    → Leaves (λ s. HasUniqueNames loc s.labels) (create_label loc state name id now)
      × Leaves (λ s. HasUniqueNames loc s.labels) (rename_label loc state id name)
      × HasUniqueNames loc (delete_label state id).labels
unfolding create_label rename_label
changes-HasUniqueNames loc state name id now v u = (
  created_unique loc state name id now (label_name_problem loc state name none) u refl,
  rename_unique loc state id name (lookup id state.labels) v u,
  delete_unique loc state id u,
)
