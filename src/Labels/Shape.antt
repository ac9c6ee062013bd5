-- ===== src/Labels/Shape.antt =====
-- The label store's shape: every message listed carries a label, and every label it carries exists.
pub mod Changes
use crypt_mail.Prelude.{
  ◌≡◌, refl, sym, ap, ◌∙◌, subst, inl, inr, Bool, true, Option, none, some, List, [], ◌∷◌,
  Bool-cases, some_injective, filter, All, Text, text_eq, text_eq_iff, Dict, lookup, insert,
  lookup-insert, Locale,
}
use crypt_mail.Prelude.Filed.{Filed, cons_filed, refile, IsFiled}
use crypt_mail.Labels.{
  Label, LabelState, clean_label_name, NameProblem, label_name_problem, Change, unless_problem,
  create_label, renamed, is_some, known, changed, refused,
}

abbrev pub IsKnown : Dict Label → Text → Type 0
IsKnown labels id = known labels id ≡ true

pub record IsLabelState (state : LabelState) : Type 0 where
  pub keyed : (id : Text) (label : Label) → lookup id state.labels ≡ some label → label.id ≡ id
  pub filed : IsFiled (IsKnown state.labels) state.applied

known-insert :
    (j id : Text) (label : Label) (labels : Dict Label)
    → known labels j ≡ true
    → known (insert id label labels) j ≡ true
unfolding known
known-insert j id label labels h =
    ap is_some (lookup-insert id j label labels)
    ∙ elim (Bool-cases (text_eq id j)) [ inl e ↦ simp e | inr n ↦ simp n h ]

All-IsKnown-insert :
    (id : Text) (label : Label) (labels : Dict Label) (ids : List Text)
    → All (IsKnown labels) ids
    → All (IsKnown (insert id label labels)) ids
All-IsKnown-insert id label labels [] h = tt
All-IsKnown-insert id label labels (j ∷ ids) h =
    (known-insert j id label labels h.0, All-IsKnown-insert id label labels ids h.1)

filed-insert :
    (id : Text) (label : Label) (labels : Dict Label) (applied : Filed)
    → IsFiled (IsKnown labels) applied
    → IsFiled (IsKnown (insert id label labels)) applied
filed-insert id label labels [] h = tt
filed-insert id label labels ((k, ids) ∷ applied) h = (
  (h.0.0, All-IsKnown-insert id label labels ids h.0.1),
  filed-insert id label labels applied h.1,
)

insert-IsLabelState :
    (state : LabelState) (id : Text) (label : Label)
    → IsLabelState state
    → label.id ≡ id
    → IsLabelState (record state { labels = insert id label state.labels })
insert-IsLabelState state id label v e = record {
  keyed = λ j other found. elim (Bool-cases (text_eq id j)) [
    | inl same ↦
        subst (λ (x : Label). x.id ≡ j)
          (some_injective label other
            (sym (simp same at (lookup-insert id j label state.labels)) ∙ found))
          (e ∙ (text_eq_iff id j).0 same)
    | inr n ↦ v.keyed j other (sym (simp n at (lookup-insert id j label state.labels)) ∙ found)
  ];
  filed = filed-insert id label state.labels state.applied v.filed;
}

-- What a change left behind, if it was not refused.
abbrev pub Leaves : (LabelState → Type 0) → Change → Type 0
Leaves P (changed state) = P state
Leaves P (refused problem) = Unit

unless_problem-Leaves :
    (P : LabelState → Type 0) (problem : Option NameProblem) (state : LabelState)
    → P state
    → Leaves P (unless_problem problem state)
unless_problem-Leaves P none state h = h
unless_problem-Leaves P (some problem) state h = tt

create_label-IsLabelState :
    (loc : Locale) (state : LabelState) (name id now : Text)
    → IsLabelState state
    → Leaves IsLabelState (create_label loc state name id now)
unfolding create_label
create_label-IsLabelState loc state name id now v =
    unless_problem-Leaves IsLabelState (label_name_problem loc state name none) _ (
      insert-IsLabelState state id
        (record { id = id; name = clean_label_name name; created_at = now }) v refl)

renamed-IsLabelState :
    (loc : Locale) (state : LabelState) (id name : Text) (entry : Option Label)
    → IsLabelState state
    → lookup id state.labels ≡ entry
    → Leaves IsLabelState (renamed loc state id name entry)
renamed-IsLabelState loc state id name none v found = v
renamed-IsLabelState loc state id name (some label) v found =
    unless_problem-Leaves IsLabelState (label_name_problem loc state name (some id)) _ (
      insert-IsLabelState state id (record label { name = clean_label_name name }) v
        (v.keyed id label found))

All-filter :
    (P Q : Text → Type 0) (keep : Text → Bool) (ids : List Text)
    → ((j : Text) → keep j ≡ true → P j → Q j)
    → All P ids
    → All Q (filter keep ids)
All-filter P Q keep [] f h = tt
All-filter P Q keep (j ∷ ids) f h = elim (Bool-cases (keep j)) [
  | inl e ↦ rw e (f j e h.0, All-filter P Q keep ids f h.1)
  | inr n ↦ rw n (All-filter P Q keep ids f h.1)
]

cons_filed-IsFiled :
    (Q : Text → Type 0) (k : Text) (ids : List Text) (filed : Filed)
    → All Q ids
    → IsFiled Q filed
    → IsFiled Q (cons_filed k ids filed)
unfolding cons_filed
cons_filed-IsFiled Q k [] filed a h = h
cons_filed-IsFiled Q k (id ∷ ids) filed a h = (((λ e. cc), a), h)

refile-IsFiled :
    (P Q : Text → Type 0) (keep : Text → Bool) (filed : Filed)
    → ((j : Text) → keep j ≡ true → P j → Q j)
    → IsFiled P filed
    → IsFiled Q (refile keep filed)
unfolding refile
refile-IsFiled P Q keep [] f h = tt
refile-IsFiled P Q keep ((k, ids) ∷ filed) f h =
    cons_filed-IsFiled Q k (filter keep ids) (refile keep filed) (All-filter P Q keep ids f h.0.1)
      (refile-IsFiled P Q keep filed f h.1)
