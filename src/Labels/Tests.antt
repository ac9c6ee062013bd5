-- ===== src/Labels/Tests.antt =====
-- Labels at concrete inputs.
use crypt_mail.Prelude.{
  none, some, [], ◌∷◌, Text, codes, text_eq, trim, has_text, lookup, insert, values, keys,
  KeysDistinct,
}
use crypt_mail.Prelude.Filed.{Filed}
use crypt_mail.Labels.{
  LabelState, empty_label_state, clean_label_name, label_name_problem, Change, create_label,
  rename_label, known, delete_label, labels_after, apply_to, apply_labels, RawLabelState, changed,
  refused,
}
use crypt_mail.Labels.Shape.{IsLabelState, Leaves}
use crypt_mail.Labels.Shape.Changes.{changes-IsLabelState}
use crypt_mail.Labels.Names.{HasUniqueNames, changes-HasUniqueNames}
use crypt_mail.Samples.{ascii, t1}

abbrev work : Text
work = codes "work"

abbrev one_label : LabelState
one_label = state_of (create_label ascii empty_label_state (codes " Work ") work t1)
  where
    state_of : Change → LabelState
    state_of (changed state) = state
    state_of (refused problem) = empty_label_state

abbrev labelled : LabelState
labelled = apply_labels one_label (codes "m" ∷ []) (work ∷ codes "gone" ∷ []) []

empty-IsLabelState : IsLabelState empty_label_state
unfolding lookup
empty-IsLabelState = record { keyed = λ id label h. absurd (cc h); filed = tt }

one_label-IsLabelState : IsLabelState one_label
unfolding create_label label_name_problem clean_label_name trim values
one_label-IsLabelState =
    (changes-IsLabelState ascii empty_label_state (codes " Work ") work t1 [] [] []
      empty-IsLabelState).0

empty-HasUniqueNames : HasUniqueNames ascii empty_label_state.labels
unfolding lookup
empty-HasUniqueNames i j a b h k e = absurd (cc h)

one_label-HasUniqueNames : HasUniqueNames ascii one_label.labels
unfolding create_label label_name_problem clean_label_name trim values
one_label-HasUniqueNames =
    (changes-HasUniqueNames ascii empty_label_state (codes " Work ") work t1 empty-IsLabelState
      empty-HasUniqueNames).0

changes-IsLabelState_example :
    Leaves IsLabelState (create_label ascii one_label (codes "home") work t1)
    × Leaves IsLabelState (rename_label ascii one_label work (codes "home"))
    × IsLabelState (delete_label one_label work)
    × IsLabelState (apply_labels one_label (codes "m" ∷ []) (work ∷ []) [])
changes-IsLabelState_example =
    changes-IsLabelState ascii one_label (codes "home") work t1 (codes "m" ∷ []) (work ∷ []) []
      one_label-IsLabelState

labelled-KeysDistinct : KeysDistinct labelled.applied
unfolding apply_labels apply_to crypt_mail.Prelude.Filed.set_filed labels_after
    crypt_mail.Prelude.Filed.push_all known lookup create_label label_name_problem clean_label_name
    trim values insert text_eq has_text keys
labelled-KeysDistinct = ((λ h. h), tt)

abbrev stored : RawLabelState
stored = record {
  labels = some one_label.labels;
  applied =
      some
        ((codes "m", some (some work ∷ none ∷ some (codes "gone") ∷ [])) ∷ (codes "n", none) ∷ []);
}
