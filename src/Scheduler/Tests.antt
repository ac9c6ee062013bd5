-- ===== src/Scheduler/Tests.antt =====
-- The scheduler at concrete inputs.
use crypt_mail.Prelude.{
  ◌≡◌, refl, ap, ◌⊎◌, inr, true, ◌++◌, lookup, text_eq, values, none, some, List, [], Text, codes,
}
use crypt_mail.Keyring.{Keyring}
use crypt_mail.Scheduler.{
  Deliver, SchedulerState, sent, failed, run, look_up, ready, drain_held, due,
}
use crypt_mail.Scheduler.Delivering.{is_stored}
use crypt_mail.Scheduler.Whole.{content_of, StandsIn, IsDrafted, WentOutAs}
use crypt_mail.Scheduler.Safety.{run-Holds}
use crypt_mail.Scheduler.Clearing.{send_due-clears}
use crypt_mail.Outbox.{Held, ScheduledOutbox, time}
use crypt_mail.Samples.{held, t1}
use crypt_mail.Prelude.{false, inl}
use crypt_mail.Scheduler.{send_due, waiting}
use crypt_mail.Samples.{ascii, ann_ring, me, one_timed, t2}

-- Every message goes out.
abbrev sends : Deliver
sends item scheduled = record { outcome = sent; scheduled = scheduled }

abbrev finds_none : List Text → Keyring → Keyring
finds_none emails keyring = keyring

abbrev state : SchedulerState
state = record {
  scheduled = one_timed;
  drafts = [];
  keyring = ann_ring;
  identity = some me;
  in_flight = [];
  last_directory_retry = 0;
  saved_outbox = one_timed;
  saved_drafts = [];
  error = none;
  auth_losses = 0;
  refreshes = 0;
}

abbrev timed : Held
timed = held (codes "a") time t1

-- No message goes out.
abbrev fails : Deliver
fails item scheduled = record { outcome = failed true (codes "no"); scheduled = scheduled }

run-Holds_example :
    (let after = run ascii fails finds_none 0 t2 state in
      StandsIn (codes "a") (content_of timed) after.scheduled
      ⊎ IsDrafted (codes "a") (content_of timed) after.drafts
      ⊎ WentOutAs fails
          (ready ascii fails finds_none (look_up ascii fails finds_none 0 state)
            ++ due ascii fails finds_none t2 (drain_held ascii fails finds_none 0 state))
          (codes "a")
          (content_of timed))
unfolding lookup text_eq values
run-Holds_example =
    run-Holds ascii fails finds_none 0 t2 state timed (codes "a")
      (λ item outbox id content says h. h) refl
      (λ item i same. elim i [ inl e ↦ ap content_of e | inr never ↦ absurd never ])

send_due-clears_example :
    (is_stored (codes "a") (send_due ascii sends finds_none t2 state).scheduled ≡ false)
    ⊎ ((scheduled : ScheduledOutbox) × ((sends timed scheduled).outcome ≡ waiting))
unfolding crypt_mail.Outbox.due_scheduled crypt_mail.Outbox.list_scheduled
    crypt_mail.Prelude.sort_by crypt_mail.Prelude.values crypt_mail.Outbox.hold_reason
    crypt_mail.Prelude.text_leb crypt_mail.Prelude.has_text
send_due-clears_example = send_due-clears ascii sends finds_none t2 state timed (inl refl)
