-- ===== src/Scheduler/Clearing.antt =====
-- What a tick has sent or rescued is gone from the outbox.
use crypt_mail.Prelude.{
  ◌≡◌, refl, ap, ◌∙◌, ◌⊎◌, inl, inr, Bool, true, false, ◌||◌, List, [], ◌∷◌, ◌++◌, arith,
  Bool-cases, In, Text, text_eq, text_eq_refl, has_text, has_text-append, Locale,
}
use crypt_mail.Keyring.{Keyring}
use crypt_mail.Outbox.{Held, ScheduledOutbox}
use crypt_mail.Drafts.{Draft}
use crypt_mail.Scheduler.{
  SendOutcome, Deliver, SchedulerState, Batch, rescue, after_due, send_each, remove_all, draft_ids,
  is_nil, new_batch, due, finish, send_due, sent, waiting, failed,
}
use crypt_mail.Scheduler.Delivering.{is_stored, is_stored-remove_all}

has_text-draft_ids :
    (id : Text) (rescued : List Draft) (d : Draft)
    → has_text id (draft_ids (rescued ++ d ∷ []))
      ≡ (has_text id (draft_ids rescued) || text_eq d.id id)
unfolding has_text
has_text-draft_ids id [] d = ground arith
has_text-draft_ids id (e ∷ rescued) d = ground (arith, has_text-draft_ids id rescued d)

-- Whether a tick has is_noted an id as sent or as rescued.
abbrev is_noted : Text → Batch → Bool
is_noted id batch = has_text id batch.sent_ids || has_text id (draft_ids batch.rescued)

after_due-noted :
    (at id : Text) (item : Held) (outcome : SendOutcome) (batch : Batch)
    → is_noted id batch ≡ true
    → is_noted id (after_due at item outcome batch) ≡ true
unfolding after_due rescue
after_due-noted at id item sent batch h =
    ground (arith, has_text-append id batch.sent_ids (item.id ∷ []))
after_due-noted at id item waiting batch h = h
after_due-noted at id item (failed auth why) batch h =
    ground (arith, has_text-draft_ids id batch.rescued (rescue at why item))

after_due-notes :
    (at : Text) (item : Held) (outcome : SendOutcome) (batch : Batch)
    → (is_noted item.id (after_due at item outcome batch) ≡ true) ⊎ (outcome ≡ waiting)
unfolding after_due rescue has_text
after_due-notes at item sent batch =
    inl
      (ground (arith, has_text-append item.id batch.sent_ids (item.id ∷ []), text_eq_refl item.id))
after_due-notes at item waiting batch = inr refl
after_due-notes at item (failed auth why) batch = inl (
    ground
      (arith, has_text-draft_ids item.id batch.rescued (rescue at why item), text_eq_refl item.id))

module _ (deliver : Deliver) (at : Text) where
  send_each-noted :
      (items : List Held) (batch : Batch) (id : Text)
      → is_noted id batch ≡ true
      → is_noted id (send_each deliver (after_due at) items batch) ≡ true
  unfolding send_each
  send_each-noted [] batch id h = h
  send_each-noted (item ∷ items) batch id h =
      send_each-noted items
        (after_due at item (deliver item batch.scheduled).outcome
          (record batch { scheduled = (deliver item batch.scheduled).scheduled }))
        id
        (after_due-noted at id item (deliver item batch.scheduled).outcome
          (record batch { scheduled = (deliver item batch.scheduled).scheduled }) h)

  send_each-notes :
      (item : Held) (items : List Held) (batch : Batch)
      → In item items
      → (is_noted item.id (send_each deliver (after_due at) items batch) ≡ true)
        ⊎ ((scheduled : ScheduledOutbox) × ((deliver item scheduled).outcome ≡ waiting))
  unfolding send_each
  send_each-notes item [] batch m = absurd m
  send_each-notes item (i ∷ items) batch (inr m) =
      send_each-notes item items
        (after_due at i (deliver i batch.scheduled).outcome
          (record batch { scheduled = (deliver i batch.scheduled).scheduled }))
        m
  send_each-notes item (i ∷ items) batch (inl e) =
      elim (after_due-notes at i (deliver i batch.scheduled).outcome
        (record batch { scheduled = (deliver i batch.scheduled).scheduled })) [
          | inr w ↦ inr (batch.scheduled, ap (λ x. (deliver x batch.scheduled).outcome) e ∙ w)
          | inl n ↦ inl (
              send_each-noted items
                (after_due at i (deliver i batch.scheduled).outcome
                  (record batch { scheduled = (deliver i batch.scheduled).scheduled }))
                item.id
                (ap
                    (λ (x : Held). is_noted x.id (
                      after_due at i (deliver i batch.scheduled).outcome
                        (record batch { scheduled = (deliver i batch.scheduled).scheduled })))
                    e
                  ∙ n))
        ]

-- After the due messages of a tick were tried, none of them stands in the outbox, so that the next
-- tick cannot send it again, but for one for which a delivery comes back as waiting.
pub send_due-clears :
    (loc : Locale) (deliver : Deliver) (discover : List Text → Keyring → Keyring) (now : Text)
    (state : SchedulerState) (item : Held)
    → In item (due loc deliver discover now state)
    → (is_stored item.id (send_due loc deliver discover now state).scheduled ≡ false)
      ⊎ ((scheduled : ScheduledOutbox) × ((deliver item scheduled).outcome ≡ waiting))
unfolding send_due finish
send_due-clears loc deliver discover now state item m =
    let batch =
      send_each deliver (after_due now) (due loc deliver discover now state)
        (new_batch state.scheduled) in
    elim (Bool-cases (is_nil (due loc deliver discover now state))) [
      | inl e ↦ absurd (none_in (due loc deliver discover now state) e m)
      | inr n ↦
          elim (send_each-notes deliver now item (due loc deliver discover now state)
            (new_batch state.scheduled) m) [
              | inr w ↦ inr w
              | inl h ↦ inl (
                  simp n (
                    ground (
                      arith,
                      is_stored-remove_all item.id (remove_all batch.scheduled batch.sent_ids)
                          (draft_ids batch.rescued),
                      is_stored-remove_all item.id batch.scheduled batch.sent_ids,
                    )))
            ]
    ]
  where
    none_in : (items : List Held) → is_nil items ≡ true → In item items → ⊥
    none_in [] e i = i
    none_in (j ∷ items) e i = absurd (cc e)
