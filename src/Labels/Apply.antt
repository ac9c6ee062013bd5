-- ===== src/Labels/Apply.antt =====
-- Which messages carry which labels, after each change.
use crypt_mail.Prelude.{
  ◌≡◌, refl, ap, ◌∙◌, inl, inr, true, ◌&&◌, ◌||◌, not, none, List, [], ◌∷◌, arith, if◌then◌else◌,
  Bool-cases, filter, Text, text_eq, text_eq_iff, has_text, has_text-filter, lookup, lookup-remove,
  KeysDistinct,
}
use crypt_mail.Prelude.Filed.{
  Filed, filed_under, set_filed, filed_under-set_filed, filed_under-refile, has_text-push_all,
}
use crypt_mail.Labels.{LabelState, known, delete_label, labels_after, apply_to, apply_labels}

has_text-labels_after :
    (l : Text) (add gone current : List Text)
    → has_text l (labels_after add gone current)
      ≡ ((has_text l current && not (has_text l gone)) || has_text l add)
unfolding labels_after
has_text-labels_after l add gone current =
    has_text-push_all l (filter (λ id. not (has_text id gone)) current) add
    ∙ ap (λ b. b || has_text l add) (has_text-filter (λ id. not (has_text id gone)) l current)

-- The first message of the selection.
carried_once :
    (l message m : Text) (add gone : List Text) (applied : Filed)
    → has_text l
        (filed_under message (set_filed m (labels_after add gone (filed_under m applied)) applied))
      ≡ (if text_eq m message
          then (has_text l (filed_under message applied) && not (has_text l gone)) || has_text l add
          else has_text l (filed_under message applied))
carried_once l message m add gone applied =
    ap (has_text l)
      (filed_under-set_filed message m (labels_after add gone (filed_under m applied)) applied)
    ∙ elim (Bool-cases (text_eq m message)) [
      | inl e ↦ simp e (
          has_text-labels_after l add gone (filed_under m applied)
          ∙ ap
              (λ i. (has_text l (filed_under i applied) && not (has_text l gone)) || has_text l add)
              ((text_eq_iff m message).0 e))
      | inr n ↦ simp n
    ]

has_text-apply_to :
    (l message : Text) (add gone : List Text) (applied : Filed) (message_ids : List Text)
    → has_text l (filed_under message (apply_to add gone applied message_ids)) ≡ (
        if has_text message message_ids
        then (has_text l (filed_under message applied) && not (has_text l gone)) || has_text l add
        else has_text l (filed_under message applied))
unfolding apply_to has_text
has_text-apply_to l message add gone applied [] = refl
has_text-apply_to l message add gone applied (m ∷ message_ids) = ground (
  arith,
  has_text-apply_to l message add gone
      (set_filed m (labels_after add gone (filed_under m applied)) applied) message_ids,
  carried_once l message m add gone applied,
)

-- A change of labels puts on exactly the known labels asked for and takes off exactly the others asked
-- for, on each message of the selection and on no other; a label both put on and taken off is put on.
pub apply_labels-carries :
    (state : LabelState) (message_ids add gone : List Text) (message l : Text)
    → has_text l (filed_under message (apply_labels state message_ids add gone).applied) ≡ (
        if has_text message message_ids
        then (has_text l (filed_under message state.applied) && not (has_text l gone))
          || (has_text l add && known state.labels l)
        else has_text l (filed_under message state.applied))
unfolding apply_labels
apply_labels-carries state message_ids add gone message l =
    has_text-apply_to l message (filter (known state.labels) add) gone state.applied message_ids
    ∙ ap
        (λ b.
          if has_text message message_ids
          then (has_text l (filed_under message state.applied) && not (has_text l gone)) || b
          else has_text l (filed_under message state.applied))
        (has_text-filter (known state.labels) l add)

-- Deleting a label that exists takes it off every message and off the list, and leaves every other
-- label where it was, where no message is filed twice.
pub delete_label-carries :
    (state : LabelState) (id message l : Text)
    → KeysDistinct state.applied
    → known state.labels id ≡ true
    → (has_text l (filed_under message (delete_label state id).applied)
        ≡ (has_text l (filed_under message state.applied) && not (text_eq l id)))
      × (lookup l (delete_label state id).labels
          ≡ (if text_eq id l then none else lookup l state.labels))
unfolding delete_label
delete_label-carries state id message l d there = rw there (
  ap (has_text l)
        (filed_under-refile (λ label_id. not (text_eq label_id id)) message state.applied d)
      ∙ has_text-filter (λ label_id. not (text_eq label_id id)) l
          (filed_under message state.applied),
  lookup-remove id l state.labels,
)
