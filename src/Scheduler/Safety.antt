-- ===== src/Scheduler/Safety.antt =====
-- No message is lost by a tick, and nothing of what it says (app/src/state/scheduler.ts, run).
use crypt_mail.Prelude.{
  ℕ, ◌+◌, ◌≡◌, refl, sym, subst, ◌⊎◌, inl, inr, true, some, List, ◌++◌, leb, Bool-cases, In-filter,
  In-append_left, In-append_right, Text, has_text, lookup, values, Locale,
}
use crypt_mail.Keyring.{Keyring}
use crypt_mail.Drafts.{DraftFields}
use crypt_mail.Outbox.{Held, resolvable_held, due_scheduled}
use crypt_mail.Outbox.Release.{due_scheduled_iff, resolvable_held_iff}
use crypt_mail.Scheduler.{
  Deliver, SchedulerState, Batch, held_lookup_interval_ms, after_due, after_held, send_each,
  remove_all, draft_ids, is_free, is_nil, new_batch, waiting_for_key, look_up, ready, send_ready,
  drain_held, due, finish, send_due, run,
}
use crypt_mail.Scheduler.Delivering.{after_due-IsFair, after_held-IsFair, send_each-honest}
use crypt_mail.Scheduler.Whole.{
  content_of, AllSay, AllDrafted, StandsIn, Holds, IsDrafted, KeepsContent, WentOutAs,
  remove_all-Holds, forget-Holds, save_rescued-kept, send_each-Holds, send_each-AllDrafted,
  WentOut-WentOutAs,
}

module _ (loc : Locale) (deliver : Deliver) (discover : List Text → Keyring → Keyring) where
  look_up-scheduled :
      (ms : ℕ) (state : SchedulerState)
      → (look_up loc deliver discover ms state).scheduled ≡ state.scheduled
  unfolding look_up
  look_up-scheduled ms state =
      elim (Bool-cases (leb (state.last_directory_retry + held_lookup_interval_ms) ms)) [
        | inl e ↦ simp e
        | inr n ↦ simp n
      ]

module _ (loc : Locale) (deliver : Deliver) (discover : List Text → Keyring → Keyring)
    (keeps : KeepsContent deliver) (id : Text) (content : DraftFields) where
  ready-AllSay :
      (state : SchedulerState)
      → AllSay id content (values state.scheduled)
      → AllSay id content (ready loc deliver discover state)
  ready-AllSay state all item i same =
      let (held, free) =
        In-filter (is_free state.in_flight) item
          (resolvable_held loc state.scheduled state.keyring state.identity) i in
      all item
        ((resolvable_held_iff loc state.scheduled state.keyring state.identity item).0 held).0 same

  due-AllSay :
      (now : Text) (state : SchedulerState)
      → AllSay id content (values state.scheduled)
      → AllSay id content (due loc deliver discover now state)
  due-AllSay now state all item i same =
      let (held, free) =
        In-filter (is_free state.in_flight) item (due_scheduled loc state.scheduled now) i in
      all item ((due_scheduled_iff loc state.scheduled now item).0 held).0 same

  send_ready-Holds :
      (state : SchedulerState)
      → Holds id content state.scheduled
      → Holds id content (send_ready loc deliver discover state).scheduled
        ⊎ WentOutAs deliver (ready loc deliver discover state) id content
  unfolding send_ready has_text
  send_ready-Holds state h =
      let batch =
        send_each deliver after_held (ready loc deliver discover state)
          (new_batch state.scheduled) in
      elim (forget-Holds id content batch.sent_ids
        (record state {
          scheduled = batch.scheduled;
          auth_losses = state.auth_losses + batch.losses;
        })
        (send_each-Holds id content deliver keeps after_held (ready loc deliver discover state)
          (new_batch state.scheduled) after_held-IsFair (ready-AllSay state h.1) h)) [
            | inl kept ↦ inl kept
            | inr seen_id ↦
                elim (send_each-honest deliver after_held after_held-IsFair
                  (ready loc deliver discover state) (new_batch state.scheduled) id seen_id) [
                    | inl before ↦ absurd (cc before)
                    | inr went ↦ inr (
                        WentOut-WentOutAs id content deliver keeps
                          (ready loc deliver discover state) (ready-AllSay state h.1) went)
                  ]
          ]

  drain_held-Holds :
      (ms : ℕ) (state : SchedulerState)
      → Holds id content state.scheduled
      → Holds id content (drain_held loc deliver discover ms state).scheduled
        ⊎ WentOutAs deliver
            (ready loc deliver discover (look_up loc deliver discover ms state))
            id
            content
  unfolding drain_held
  drain_held-Holds ms state h = elim (Bool-cases (is_nil (waiting_for_key loc state))) [
    | inl e ↦ inl (simp e h)
    | inr n ↦ simp n (
        send_ready-Holds (look_up loc deliver discover ms state)
          (subst (Holds id content) (sym (look_up-scheduled loc deliver discover ms state)) h))
  ]

  finish-Holds :
      (batch : Batch) (state : SchedulerState)
      → AllDrafted id content batch.rescued
      → Holds id content batch.scheduled
      → Holds id content (finish loc deliver discover batch state).scheduled
        ⊎ IsDrafted id content (finish loc deliver discover batch state).drafts
        ⊎ (has_text id batch.sent_ids ≡ true)
  unfolding finish
  finish-Holds batch state all h = elim (Bool-cases (has_text id batch.sent_ids)) [
    | inl e ↦ inr (inr e)
    | inr n ↦ elim (Bool-cases (has_text id (draft_ids batch.rescued))) [
      | inl r ↦ inr (inl (save_rescued-kept id content state.drafts batch.rescued all (inr r)))
      | inr m ↦ inl (
          remove_all-Holds id content (remove_all batch.scheduled batch.sent_ids)
            (draft_ids batch.rescued) m
            (remove_all-Holds id content batch.scheduled batch.sent_ids n h))
    ]
  ]

  send_due-Holds :
      (now : Text) (state : SchedulerState)
      → Holds id content state.scheduled
      → Holds id content (send_due loc deliver discover now state).scheduled
        ⊎ IsDrafted id content (send_due loc deliver discover now state).drafts
        ⊎ WentOutAs deliver (due loc deliver discover now state) id content
  unfolding send_due has_text
  send_due-Holds now state h =
      let items = due loc deliver discover now state in
      let all = due-AllSay now state h.1 in
      elim (Bool-cases (is_nil items)) [
        | inl e ↦ inl (simp e h)
        | inr n ↦
            simp n
              (elim (finish-Holds
                (send_each deliver (after_due now) items (new_batch state.scheduled)) state
                (send_each-AllDrafted id content deliver keeps now items (new_batch state.scheduled)
                  all (λ d i same. absurd i))
                (send_each-Holds id content deliver keeps (after_due now) items
                  (new_batch state.scheduled) (after_due-IsFair now) all h)) [
                    | inl kept ↦ inl kept
                    | inr (inl drafted) ↦ inr (inl drafted)
                    | inr (inr seen_id) ↦
                        elim (send_each-honest deliver (after_due now) (after_due-IsFair now) items
                          (new_batch state.scheduled) id seen_id) [
                            | inl before ↦ absurd (cc before)
                            | inr went ↦
                                inr
                                  (inr (WentOut-WentOutAs id content deliver keeps items all went))
                          ]
                  ])
      ]

WentOutAs-append_left :
    (deliver : Deliver) (items more : List Held) (id : Text) (content : DraftFields)
    → WentOutAs deliver items id content
    → WentOutAs deliver (items ++ more) id content
WentOutAs-append_left deliver items more id content (i, box, m, same, says, went) =
    (i, box, In-append_left i items more m, same, says, went)

WentOutAs-append_right :
    (deliver : Deliver) (items more : List Held) (id : Text) (content : DraftFields)
    → WentOutAs deliver more id content
    → WentOutAs deliver (items ++ more) id content
WentOutAs-append_right deliver items more id content (i, box, m, same, says, went) =
    (i, box, In-append_right i items more m, same, says, went)

-- A tick loses no message and nothing of what it says: the recipients, the subject, both bodies, the
-- attachments and the thread that stand in the outbox under an id still stand there afterwards, or are those
-- of the draft under that id, or went out, a delivery of them under the id having come back as sent. This
-- holds where all messages of the id in the outbox agree on these, and where a delivery takes no message out
-- of the outbox and puts one there only with what it was given.
pub run-Holds :
    (loc : Locale) (deliver : Deliver) (discover : List Text → Keyring → Keyring) (ms : ℕ)
    (now : Text) (state : SchedulerState) (item : Held) (id : Text)
    → KeepsContent deliver
    → lookup id state.scheduled ≡ some item
    → AllSay id (content_of item) (values state.scheduled)
    → (let after = run loc deliver discover ms now state in
        StandsIn id (content_of item) after.scheduled
        ⊎ IsDrafted id (content_of item) after.drafts
        ⊎ WentOutAs deliver
            (ready loc deliver discover (look_up loc deliver discover ms state)
              ++ due loc deliver discover now (drain_held loc deliver discover ms state))
            id
            (content_of item))
unfolding run
run-Holds loc deliver discover ms now state item id keeps found all =
    let content = content_of item in
    let first = ready loc deliver discover (look_up loc deliver discover ms state) in
    let drained = drain_held loc deliver discover ms state in
    let second = due loc deliver discover now drained in
    elim (drain_held-Holds loc deliver discover keeps id content ms state
      ((item, found, refl), all)) [
        | inr went ↦ inr (inr (WentOutAs-append_left deliver first second id content went))
        | inl kept ↦ elim (send_due-Holds loc deliver discover keeps id content now drained kept) [
          | inl still ↦ inl still.0
          | inr (inl drafted) ↦ inr (inl drafted)
          | inr (inr went) ↦ inr (inr (WentOutAs-append_right deliver first second id content went))
        ]
      ]
