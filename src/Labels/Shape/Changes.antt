-- ===== src/Labels/Shape/Changes.antt =====
-- Every change of the labels keeps the store's shape.
use crypt_mail.Prelude.{
  ◌≡◌, refl, sym, ap, ◌∙◌, inl, inr, Bool, true, not, Option, none, some, List, [], ◌∷◌, ◌++◌,
  Bool-cases, filter, All, Text, text_eq, text_eq_iff, has_text, Dict, lookup, insert, remove,
  lookup-remove, Locale,
}
use crypt_mail.Prelude.Filed.{Filed, filed_under, set_filed, IsFiled, push_all}
use crypt_mail.Labels.{
  Label, LabelState, create_label, rename_label, is_some, known, delete_label, labels_after,
  apply_to, apply_labels, RawLabelState, texts_of, kept_entries, normalise_label_state,
}
use crypt_mail.Labels.Shape.{IsKnown, IsLabelState, Leaves}
use crypt_mail.Labels.Shape.{
  create_label-IsLabelState, renamed-IsLabelState, refile-IsFiled, cons_filed-IsFiled,
}

module _ (P : Text → Type 0) where
  insert-IsFiled :
      (k id : Text) (ids : List Text) (filed : Filed)
      → All P (id ∷ ids)
      → IsFiled P filed
      → IsFiled P (insert k (id ∷ ids) filed)
  unfolding insert
  insert-IsFiled k id ids [] a h = (((λ e. cc), a), tt)
  insert-IsFiled k id ids ((j, js) ∷ filed) a h = elim (Bool-cases (text_eq j k)) [
    | inl e ↦ rw e (((λ z. cc), a), h.1)
    | inr n ↦ rw n (h.0, insert-IsFiled k id ids filed a h.1)
  ]

  remove-IsFiled : (k : Text) (filed : Filed) → IsFiled P filed → IsFiled P (remove k filed)
  unfolding remove
  remove-IsFiled k [] h = tt
  remove-IsFiled k ((j, js) ∷ filed) h = elim (Bool-cases (text_eq j k)) [
    | inl e ↦ rw e (remove-IsFiled k filed h.1)
    | inr n ↦ rw n (h.0, remove-IsFiled k filed h.1)
  ]

  set_filed-IsFiled :
      (k : Text) (ids : List Text) (filed : Filed)
      → All P ids
      → IsFiled P filed
      → IsFiled P (set_filed k ids filed)
  unfolding set_filed
  set_filed-IsFiled k [] filed a h = remove-IsFiled k filed h
  set_filed-IsFiled k (id ∷ ids) filed a h = insert-IsFiled k id ids filed a h

  filed_under-All : (k : Text) (filed : Filed) → IsFiled P filed → All P (filed_under k filed)
  unfolding lookup
  filed_under-All k [] h = tt
  filed_under-All k ((j, js) ∷ filed) h = elim (Bool-cases (text_eq j k)) [
    | inl e ↦ rw e h.0.1
    | inr n ↦ rw n (filed_under-All k filed h.1)
  ]

  All-append : (xs : List Text) (x : Text) → All P xs → P x → All P (xs ++ x ∷ [])
  All-append [] x a p = (p, tt)
  All-append (y ∷ xs) x a p = (a.0, All-append xs x a.1 p)

  All-sub : (keep : Text → Bool) (xs : List Text) → All P xs → All P (filter keep xs)
  All-sub keep [] a = tt
  All-sub keep (x ∷ xs) a = elim (Bool-cases (keep x)) [
    | inl e ↦ rw e (a.0, All-sub keep xs a.1)
    | inr n ↦ rw n (All-sub keep xs a.1)
  ]

  push_all-All : (next add : List Text) → All P next → All P add → All P (push_all next add)
  unfolding push_all
  push_all-All next [] n a = n
  push_all-All next (id ∷ add) n a = elim (Bool-cases (has_text id next)) [
    | inl e ↦ rw e (push_all-All next add n a.1)
    | inr m ↦ rw m (push_all-All (next ++ id ∷ []) add (All-append next id n a.0) a.1)
  ]

  apply_to-IsFiled :
      (add gone : List Text) (applied : Filed) (message_ids : List Text)
      → All P add
      → IsFiled P applied
      → IsFiled P (apply_to add gone applied message_ids)
  unfolding apply_to labels_after
  apply_to-IsFiled add gone applied [] a h = h
  apply_to-IsFiled add gone applied (m ∷ message_ids) a h =
      apply_to-IsFiled add gone
        (set_filed m (push_all (filter (λ id. not (has_text id gone)) (filed_under m applied)) add)
          applied)
        message_ids a
        (set_filed-IsFiled m
          (push_all (filter (λ id. not (has_text id gone)) (filed_under m applied)) add) applied
          (push_all-All (filter (λ id. not (has_text id gone)) (filed_under m applied)) add
            (All-sub (λ id. not (has_text id gone)) (filed_under m applied)
              (filed_under-All m applied h))
            a)
          h)

All-known :
    (labels : Dict Label) (ids : List Text) → All (IsKnown labels) (filter (known labels) ids)
All-known labels [] = tt
All-known labels (id ∷ ids) = elim (Bool-cases (known labels id)) [
  | inl e ↦ rw e (e, All-known labels ids)
  | inr n ↦ rw n (All-known labels ids)
]

known-remove :
    (labels : Dict Label) (id j : Text)
    → not (text_eq j id) ≡ true
    → known labels j ≡ true
    → known (remove id labels) j ≡ true
unfolding known
known-remove labels id j n h =
    ap is_some (lookup-remove id j labels) ∙ elim (Bool-cases (text_eq id j)) [
      | inl e ↦ absurd (cc (n, (text_eq_iff j id).1 (sym ((text_eq_iff id j).0 e))))
      | inr m ↦ simp m h
    ]

delete_label-IsLabelState :
    (state : LabelState) (id : Text) → IsLabelState state → IsLabelState (delete_label state id)
unfolding delete_label
delete_label-IsLabelState state id v = elim (Bool-cases (known state.labels id)) [
  | inr absent ↦ rw absent v
  | inl there ↦ rw there (record {
    keyed = λ j label found. elim (Bool-cases (text_eq id j)) [
      | inl e ↦ absurd (cc (simp e at (lookup-remove id j state.labels), found))
      | inr n ↦ v.keyed j label (sym (simp n at (lookup-remove id j state.labels)) ∙ found)
    ];
    filed =
        refile-IsFiled (IsKnown state.labels) (IsKnown (remove id state.labels))
          (λ label_id. not (text_eq label_id id)) state.applied
          (λ j n h. known-remove state.labels id j n h) v.filed;
  })
]

apply_labels-IsLabelState :
    (state : LabelState) (message_ids add gone : List Text)
    → IsLabelState state
    → IsLabelState (apply_labels state message_ids add gone)
unfolding apply_labels
apply_labels-IsLabelState state message_ids add gone v = record {
  keyed = v.keyed;
  filed =
      apply_to-IsFiled (IsKnown state.labels) (filter (known state.labels) add) gone state.applied
        message_ids (All-known state.labels add) v.filed;
}

-- From a state of that shape, creating, renaming, deleting and applying labels lead to one again:
-- no message is listed with no label, no label that is gone is left on a message, and every label
-- stands under its own id. A refused change leaves nothing.
pub changes-IsLabelState :
    (loc : Locale) (state : LabelState) (name id now : Text) (message_ids add gone : List Text)
    → IsLabelState state
    → Leaves IsLabelState (create_label loc state name id now)
      × Leaves IsLabelState (rename_label loc state id name)
      × IsLabelState (delete_label state id)
      × IsLabelState (apply_labels state message_ids add gone)
unfolding rename_label
changes-IsLabelState loc state name id now message_ids add gone v = (
  create_label-IsLabelState loc state name id now v,
  renamed-IsLabelState loc state id name (lookup id state.labels) v refl,
  delete_label-IsLabelState state id v,
  apply_labels-IsLabelState state message_ids add gone v,
)

kept_entries-IsFiled :
    (labels : Dict Label) (applied : Dict (Option (List (Option Text))))
    → IsFiled (IsKnown labels) (kept_entries labels applied)
unfolding kept_entries
kept_entries-IsFiled labels [] = tt
kept_entries-IsFiled labels ((k, none) ∷ applied) = kept_entries-IsFiled labels applied
kept_entries-IsFiled labels ((k, some ids) ∷ applied) =
    cons_filed-IsFiled (IsKnown labels) k (filter (known labels) (texts_of ids))
      (kept_entries labels applied) (All-known labels (texts_of ids))
      (kept_entries-IsFiled labels applied)

-- Whatever the store held, what is read back lists no message without a label and no label that does
-- not exist.
pub normalise_label_state-IsFiled :
    (raw : Option RawLabelState)
    → IsFiled (IsKnown (normalise_label_state raw).labels) (normalise_label_state raw).applied
unfolding normalise_label_state
normalise_label_state-IsFiled none = tt
normalise_label_state-IsFiled (some raw) = kept_entries-IsFiled _ _
