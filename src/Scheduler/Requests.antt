-- ===== src/Scheduler/Requests.antt =====
-- What the user asks of the queue (app/src/state/scheduler.ts: hold, scheduleSend, cancelScheduled,
-- sendScheduledNow). The one-shot timers, which only bring a tick forward, stand outside.
use crypt_mail.Prelude.{
  ◌+◌, ◌≡◌, refl, sym, ap, ◌∙◌, Bool, true, false, Option, none, some, List, [], ◌∷◌, if◌then◌else◌,
  any, Text, text_eq_refl, lookup, lookup-remove,
}
use crypt_mail.Recipients.{RecipientState, Status}
use crypt_mail.Outbox.{Held, upsert_scheduled, remove_scheduled, time}
use crypt_mail.Scheduler.{SendOutcome, Deliver, SchedulerState, forget, sent, waiting, failed}
use crypt_mail.Scheduler.Delivering.{is_stored, is_given, KeepsOutbox}

unfoldable pub hold : Held → SchedulerState → SchedulerState
hold item state = record state {
  scheduled = upsert_scheduled state.scheduled item;
  saved_outbox = upsert_scheduled state.scheduled item;
}

-- r.status === 'changed'
abbrev pub blocks : RecipientState → Bool
blocks recipient = is_changed recipient.status
  where
    is_changed : Status → Bool
    is_changed Status.changed = true
    is_changed _ = false

-- The states of the recipients, as `discoverRecipients` found them, decide; `false` is the error.
unfoldable pub schedule_send : List RecipientState → Held → SchedulerState → Bool × SchedulerState
unfolding hold
schedule_send recipients item state =
    if any blocks recipients
    then (false, state)
    else (true, hold (record item { reason = some time; pending = none }) state)

unfoldable pub cancel_scheduled : Text → SchedulerState → SchedulerState
unfolding forget
cancel_scheduled id state = forget (id ∷ []) state

abbrev after_now : Text → SendOutcome → SchedulerState → SchedulerState
after_now id sent state =
    let gone = remove_scheduled state.scheduled id in
    record state { scheduled = gone; saved_outbox = gone; refreshes = state.refreshes + 1 }
after_now id waiting state = state
after_now id (failed auth why) state = state

abbrev try_now : Deliver → Text → Option Held → SchedulerState → Option SendOutcome × SchedulerState
try_now deliver id none state = (none, state)
try_now deliver id (some item) state =
    let delivery = deliver item state.scheduled in
    (
      some delivery.outcome,
      after_now id delivery.outcome (record state { scheduled = delivery.scheduled }),
    )

-- `none` means that the id was no longer in the outbox.
unfoldable pub send_scheduled_now :
    Deliver → Text → SchedulerState → Option SendOutcome × SchedulerState
send_scheduled_now deliver id state = try_now deliver id (lookup id state.scheduled) state

-- What the queue holds of the message after an answer to the request to send it now.
abbrev pub IsAnswered : Text → Option SendOutcome → SchedulerState → SchedulerState → Type 0
IsAnswered id none before after = (is_stored id before.scheduled ≡ false) × (after ≡ before)
IsAnswered id (some sent) before after = is_stored id after.scheduled ≡ false
IsAnswered id (some waiting) before after = is_stored id after.scheduled ≡ true
IsAnswered id (some (failed auth why)) before after = is_stored id after.scheduled ≡ true

after_now-IsAnswered :
    (id : Text) (outcome : SendOutcome) (before state : SchedulerState)
    → is_stored id state.scheduled ≡ true
    → IsAnswered id (some outcome) before (after_now id outcome state)
unfolding remove_scheduled
after_now-IsAnswered id sent before state h =
    ap is_given (lookup-remove id id state.scheduled) ∙ simp (text_eq_refl id)
after_now-IsAnswered id waiting before state h = h
after_now-IsAnswered id (failed auth why) before state h = h

try_now-IsAnswered :
    (deliver : Deliver) (id : Text) (found : Option Held) (state : SchedulerState)
    → KeepsOutbox deliver
    → found ≡ lookup id state.scheduled
    → IsAnswered id (try_now deliver id found state).0 state (try_now deliver id found state).1
try_now-IsAnswered deliver id none state keeps e = (ap is_given (sym e), refl)
try_now-IsAnswered deliver id (some item) state keeps e =
    after_now-IsAnswered id (deliver item state.scheduled).outcome state
      (record state { scheduled = (deliver item state.scheduled).scheduled })
      (keeps item state.scheduled id (ap is_given (sym e)))

-- A request to send a queued message now takes it from the queue exactly if the answer is that it was
-- sent: with an answer that it waits, and with an error, it is still there, and without an answer it was
-- not there and nothing changed. This holds where sending a message takes none out of the outbox.
pub send_scheduled_now-IsAnswered :
    (deliver : Deliver) (id : Text) (state : SchedulerState)
    → KeepsOutbox deliver
    → IsAnswered id
        (send_scheduled_now deliver id state).0
        state
        (send_scheduled_now deliver id state).1
unfolding send_scheduled_now
send_scheduled_now-IsAnswered deliver id state keeps =
    try_now-IsAnswered deliver id (lookup id state.scheduled) state keeps refl
