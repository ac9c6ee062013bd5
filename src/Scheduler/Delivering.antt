-- ===== src/Scheduler/Delivering.antt =====
-- What a run of deliveries does to the outbox and to the notes of a tick.
use crypt_mail.Prelude.{
  ◌≡◌, refl, ap, ◌∙◌, ◌⊎◌, inl, inr, Bool, true, false, ◌&&◌, not, Option, none, some, List, [],
  ◌∷◌, ◌++◌, arith, Bool-cases, In, Text, text_eq, text_eq_iff, has_text, has_text-append, Dict,
  lookup, remove, lookup-remove,
}
use crypt_mail.Outbox.{Held, ScheduledOutbox, remove_scheduled}
use crypt_mail.Scheduler.{
  SendOutcome, Deliver, Batch, after_due, after_held, send_each, remove_all, sent, waiting, failed,
}

abbrev pub is_given {ℓ} : {A : Type ℓ} → Option A → Bool
is_given none = false
is_given (some a) = true

abbrev pub is_stored {ℓ} : {V : Type ℓ} → Text → Dict V → Bool
is_stored id dict = is_given (lookup id dict)

pub is_stored-remove_all :
    (id : Text) (scheduled : ScheduledOutbox) (ids : List Text)
    → is_stored id (remove_all scheduled ids) ≡ (is_stored id scheduled && not (has_text id ids))
unfolding remove_all remove_scheduled has_text
is_stored-remove_all id scheduled [] = ground arith
is_stored-remove_all id scheduled (j ∷ ids) =
    is_stored-remove_all id (remove j scheduled) ids
    ∙ ap (λ o. is_given o && not (has_text id ids)) (lookup-remove j id scheduled)
    ∙ elim (Bool-cases (text_eq j id)) [ inl e ↦ simp e (ground arith) | inr n ↦ simp n ]

-- Sending a message takes no message out of the outbox; only the scheduler does.
abbrev pub KeepsOutbox : Deliver → Type 0
KeepsOutbox deliver =
    (item : Held) (scheduled : ScheduledOutbox) (id : Text)
    → is_stored id scheduled ≡ true
    → is_stored id (deliver item scheduled).scheduled ≡ true

-- A message of this id went out: some delivery of it came back with `sent`.
abbrev pub WentOut : Deliver → List Held → Text → Type 0
WentOut deliver items id =
    (item : Held) × (scheduled : ScheduledOutbox) × In item items
    × (item.id ≡ id)
    × ((deliver item scheduled).outcome ≡ sent)

-- What the bookkeeping after a delivery may do: leave the outbox, and note an id as sent only after `sent`.
pub record IsFair (after : Held → SendOutcome → Batch → Batch) : Type 0 where
  pub outbox :
      (item : Held) (outcome : SendOutcome) (batch : Batch)
      → (after item outcome batch).scheduled ≡ batch.scheduled
  pub honest :
      (id : Text) (item : Held) (outcome : SendOutcome) (batch : Batch)
      → has_text id (after item outcome batch).sent_ids ≡ true
      → (has_text id batch.sent_ids ≡ true) ⊎ ((item.id ≡ id) × (outcome ≡ sent))

sent_last :
    (id : Text) (item : Held) (ids : List Text)
    → has_text id (ids ++ item.id ∷ []) ≡ true
    → (has_text id ids ≡ true) ⊎ ((item.id ≡ id) × (sent ≡ sent))
unfolding has_text
sent_last id item ids h = elim (Bool-cases (has_text id ids)) [
  | inl e ↦ inl e
  | inr n ↦
      inr ((text_eq_iff item.id id).0 (ground (arith, has_text-append id ids (item.id ∷ []))), refl)
]

pub after_due-IsFair : (at : Text) → IsFair (after_due at)
unfolding after_due
after_due-IsFair at = record { outbox = same_outbox; honest = honestly }
  where
    same_outbox :
        (item : Held) (outcome : SendOutcome) (batch : Batch)
        → (after_due at item outcome batch).scheduled ≡ batch.scheduled
    same_outbox item sent batch = refl
    same_outbox item waiting batch = refl
    same_outbox item (failed auth why) batch = refl

    honestly :
        (id : Text) (item : Held) (outcome : SendOutcome) (batch : Batch)
        → has_text id (after_due at item outcome batch).sent_ids ≡ true
        → (has_text id batch.sent_ids ≡ true) ⊎ ((item.id ≡ id) × (outcome ≡ sent))
    honestly id item sent batch h = sent_last id item batch.sent_ids h
    honestly id item waiting batch h = inl h
    honestly id item (failed auth why) batch h = inl h

pub after_held-IsFair : IsFair after_held
unfolding after_held
after_held-IsFair = record { outbox = same_outbox; honest = honestly }
  where
    same_outbox :
        (item : Held) (outcome : SendOutcome) (batch : Batch)
        → (after_held item outcome batch).scheduled ≡ batch.scheduled
    same_outbox item sent batch = refl
    same_outbox item waiting batch = refl
    same_outbox item (failed auth why) batch = refl

    honestly :
        (id : Text) (item : Held) (outcome : SendOutcome) (batch : Batch)
        → has_text id (after_held item outcome batch).sent_ids ≡ true
        → (has_text id batch.sent_ids ≡ true) ⊎ ((item.id ≡ id) × (outcome ≡ sent))
    honestly id item sent batch h = sent_last id item batch.sent_ids h
    honestly id item waiting batch h = inl h
    honestly id item (failed auth why) batch h = inl h

module _ (deliver : Deliver) (after : Held → SendOutcome → Batch → Batch)
    (fair : IsFair after) where
  pub send_each-honest :
      (items : List Held) (batch : Batch) (id : Text)
      → has_text id (send_each deliver after items batch).sent_ids ≡ true
      → (has_text id batch.sent_ids ≡ true) ⊎ WentOut deliver items id
  unfolding send_each
  send_each-honest [] batch id h = inl h
  send_each-honest (item ∷ items) batch id h =
      elim (send_each-honest items
        (after item (deliver item batch.scheduled).outcome
          (record batch { scheduled = (deliver item batch.scheduled).scheduled }))
        id h) [
          | inr went ↦ let (i, box, m, e, s) = went in inr (i, box, inr m, e, s)
          | inl before ↦
              elim (fair.honest id item (deliver item batch.scheduled).outcome
                (record batch { scheduled = (deliver item batch.scheduled).scheduled }) before) [
                  | inl earlier ↦ inl earlier
                  | inr now ↦ inr (item, batch.scheduled, inl refl, now.0, now.1)
                ]
        ]
