-- ===== src/Labels.antt =====
-- Local labels (app/src/labels/labels.ts): the names, and which messages carry which. A refused name is
-- an error with its reason; the words are the interface's.
pub mod Shape
pub mod Names
pub mod Apply
mod Tests
use crypt_mail.Prelude.{
  ℕ, Bool, true, false, ◌&&◌, not, Option, none, some, List, [], ◌∷◌, map, ◌==◌, if◌then◌else◌,
  length, take, filter, any, Text, text_eq, is_space, trim, is_empty, has_text, Dict, lookup,
  insert, remove, values, sort_by, Locale,
}
use crypt_mail.Prelude.Filed.{Filed, filed_under, cons_filed, refile, set_filed, push_all}

pub record Label : Type 0 where
  pub id : Text
  pub name : Text
  pub created_at : Text

pub record LabelState : Type 0 where
  pub labels : Dict Label
  pub applied : Filed

abbrev pub empty_label_state : LabelState
empty_label_state = record { labels = []; applied = [] }

abbrev pub max_label_name : ℕ
max_label_name = 40

-- name.replace(/\s+/g, ' '): `in_run` after a space.
collapse : Bool → Text → Text
collapse in_run [] = []
collapse in_run (c ∷ s) = elim (is_space c) [
  | true ↦ if in_run then collapse true s else 32 ∷ collapse true s
  | false ↦ c ∷ collapse false s
]

unfoldable pub clean_label_name : Text → Text
unfolding collapse
clean_label_name name = take max_label_name (collapse false (trim name))

-- Why a name cannot be used.
pub data NameProblem : Type 0 where
  no_name : NameProblem
  name_taken : Text → NameProblem

-- label.id !== except
abbrev pub is_other : Option Text → Label → Bool
is_other none label = true
is_other (some except) label = not (text_eq label.id except)

abbrev pub same_name : Locale → Text → Label → Bool
same_name loc clean label = text_eq (loc.lower label.name) (loc.lower clean)

abbrev pub takes_name : Locale → Text → Option Text → Label → Bool
takes_name loc clean except label = is_other except label && same_name loc clean label

unfoldable pub label_name_problem : Locale → LabelState → Text → Option Text → Option NameProblem
label_name_problem loc state name except =
    let clean = clean_label_name name in
    if is_empty clean
    then some no_name
    else if any (takes_name loc clean except) (values state.labels)
    then some (name_taken clean)
    else none

abbrev pub name_le : Locale → Label → Label → Bool
name_le loc a b = loc.base_le a.name b.name

unfoldable pub list_labels : Locale → LabelState → List Label
list_labels loc state = sort_by (name_le loc) (values state.labels)

-- A new state, or the error that refuses the change.
pub data Change : Type 0 where
  changed : LabelState → Change
  refused : NameProblem → Change

abbrev pub unless_problem : Option NameProblem → LabelState → Change
unless_problem none state = changed state
unless_problem (some problem) state = refused problem

unfoldable pub create_label : Locale → LabelState → Text → Text → Text → Change
create_label loc state name id now =
    unless_problem (label_name_problem loc state name none) (record state {
      labels =
          insert id (record { id = id; name = clean_label_name name; created_at = now })
            state.labels;
    })

abbrev pub renamed : Locale → LabelState → Text → Text → Option Label → Change
renamed loc state id name none = changed state
renamed loc state id name (some label) =
    unless_problem (label_name_problem loc state name (some id)) (record state {
      labels = insert id (record label { name = clean_label_name name }) state.labels;
    })

unfoldable pub rename_label : Locale → LabelState → Text → Text → Change
rename_label loc state id name = renamed loc state id name (lookup id state.labels)

-- A truthy entry of `labels`.
abbrev pub is_some {ℓ} : {A : Type ℓ} → Option A → Bool
is_some none = false
is_some (some a) = true

unfoldable pub known : Dict Label → Text → Bool
known labels id = is_some (lookup id labels)

unfoldable pub delete_label : LabelState → Text → LabelState
delete_label state id =
    if known state.labels id
    then record {
      labels = remove id state.labels;
      applied = refile (λ label_id. not (text_eq label_id id)) state.applied;
    }
    else state

-- The labels of one message after the change.
unfoldable pub labels_after : List Text → List Text → List Text → List Text
labels_after add gone current = push_all (filter (λ id. not (has_text id gone)) current) add

unfoldable pub apply_to : List Text → List Text → Filed → List Text → Filed
apply_to add gone applied [] = applied
apply_to add gone applied (message_id ∷ message_ids) =
    apply_to add gone
      (set_filed message_id (labels_after add gone (filed_under message_id applied)) applied)
      message_ids

unfoldable pub apply_labels : LabelState → List Text → List Text → List Text → LabelState
apply_labels state message_ids add gone = record state {
  applied = apply_to (filter (known state.labels) add) gone state.applied message_ids;
}

-- The labels that the ids name.
unfoldable pub named : Dict Label → List Text → List Label
named labels [] = []
named labels (id ∷ ids) = elim (lookup id labels) [
  | none ↦ named labels ids
  | some label ↦ label ∷ named labels ids
]

unfoldable pub labels_on : Locale → LabelState → Text → List Label
labels_on loc state message_id =
    sort_by (name_le loc) (named state.labels (filed_under message_id state.applied))

-- Whether any of the messages carries the label.
unfoldable pub has_label : LabelState → List Text → Text → Bool
has_label state message_ids label_id =
    any (λ id. has_text label_id (filed_under id state.applied)) message_ids

unfoldable pub label_names_for : Locale → LabelState → List Text → List Text
unfolding has_label
label_names_for loc state message_ids =
    map (λ (label : Label). label.name)
      (filter (λ (label : Label). has_label state message_ids label.id) (list_labels loc state))

pub data Coverage : Type 0 where
  on_all on_some on_none : Coverage

unfoldable pub label_coverage : LabelState → List Text → Text → Coverage
label_coverage state message_ids label_id =
    let carrying =
      length (filter (λ id. has_text label_id (filed_under id state.applied)) message_ids) in
    if carrying == 0 then on_none else if carrying == length message_ids then on_all else on_some

-- What a store may hold in place of the labels: an entry of `applied` that is no array is `none`, and
-- so is an element that is no string.
pub record RawLabelState : Type 0 where
  pub labels : Option (Dict Label)
  pub applied : Option (Dict (Option (List (Option Text))))

unfoldable pub texts_of : List (Option Text) → List Text
texts_of [] = []
texts_of (none ∷ ids) = texts_of ids
texts_of (some id ∷ ids) = id ∷ texts_of ids

unfoldable pub kept_entries : Dict Label → Dict (Option (List (Option Text))) → Filed
kept_entries labels [] = []
kept_entries labels ((message_id, none) ∷ applied) = kept_entries labels applied
kept_entries labels ((message_id, some ids) ∷ applied) =
    cons_filed message_id (filter (known labels) (texts_of ids)) (kept_entries labels applied)

abbrev or_empty {ℓ} : {A : Type ℓ} → Option (List A) → List A
or_empty none = []
or_empty (some xs) = xs

unfoldable pub normalise_label_state : Option RawLabelState → LabelState
normalise_label_state none = empty_label_state
normalise_label_state (some raw) = record {
  labels = or_empty raw.labels;
  applied = kept_entries (or_empty raw.labels) (or_empty raw.applied);
}
