-- ===== src/Scheduler.antt =====
-- The scheduler's tick (app/src/state/scheduler.ts): what waited for a key and can go, then what is due.
-- Sending, discovery and the waking of snoozed mail are other services, given here by what they do to
-- the state; the timers that call a tick stand outside.
pub mod Delivering
pub mod Safety
pub mod Whole
pub mod Clearing
pub mod Requests
mod Tests
use crypt_mail.Prelude.{
  ℕ, ◌+◌, ◌*◌, Bool, true, false, ◌&&◌, not, Option, none, some, List, [], ◌∷◌, ◌++◌, map, leb,
  if◌then◌else◌, length, filter, Text, has_text, Locale,
}
use crypt_mail.Keyring.{Keyring}
use crypt_mail.Recipients.{Identity}
use crypt_mail.Outbox.{
  Held, ScheduledOutbox, hold_reason, is_awaiting_key, list_scheduled, due_scheduled, still_pending,
  resolvable_held, remove_scheduled,
}
use crypt_mail.Drafts.{Draft, Drafts, upsert_draft}

-- What `deliver` comes back with: sent, held again, or an error, which may ask for a new sign-in.
pub data SendOutcome : Type 0 where
  sent waiting : SendOutcome
  failed : Bool → Text → SendOutcome

pub record Delivery : Type 0 where
  pub outcome : SendOutcome
  pub scheduled : ScheduledOutbox

-- The outbox while a message is under way is what sending it leaves.
abbrev pub Deliver : Type 0
Deliver = Held → ScheduledOutbox → Delivery

-- The notice on failed messages: how many, and the first reason.
pub record Notice : Type 0 where
  pub count : ℕ
  pub reason : Option Text

pub record SchedulerState : Type 0 where
  pub scheduled : ScheduledOutbox
  pub drafts : Drafts
  pub keyring : Keyring
  pub identity : Option Identity
  pub in_flight : List Text
  pub last_directory_retry : ℕ
  pub saved_outbox : ScheduledOutbox
  pub saved_drafts : Drafts
  pub error : Option Notice
  pub auth_losses : ℕ
  pub refreshes : ℕ

abbrev pub held_lookup_interval_ms : ℕ
held_lookup_interval_ms = 5 * 60 * 1000

-- What the loop over the messages gathers.
pub record Batch : Type 0 where
  pub scheduled : ScheduledOutbox
  pub sent_ids : List Text
  pub rescued : List Draft
  pub reason : Option Text
  pub losses : ℕ

abbrev pub first_reason : Option Text → Text → Option Text
first_reason none why = some why
first_reason (some reason) why = some reason

abbrev pub one_if : Bool → ℕ
one_if true = 1
one_if false = 0

-- The draft that a message becomes when sending it fails.
unfoldable pub rescue : Text → Text → Held → Draft
rescue at why item = record {
  fields = record {
    to = item.to;
    subject = item.subject;
    body = item.body;
    html = item.html;
    attachments = item.attachments;
    attachments_omitted = none;
    in_reply_to = item.in_reply_to;
    references = item.references;
  };
  id = item.id;
  updated_at = at;
  send_error = some why;
}

-- A due message that could not be sent is rescued; one that waited for a key stays held.
unfoldable pub after_due : Text → Held → SendOutcome → Batch → Batch
after_due at item sent batch = record batch { sent_ids = batch.sent_ids ++ item.id ∷ [] }
after_due at item waiting batch = batch
after_due at item (failed auth why) batch = record batch {
  rescued = batch.rescued ++ rescue at why item ∷ [];
  reason = first_reason batch.reason why;
  losses = batch.losses + one_if auth;
}

unfoldable pub after_held : Held → SendOutcome → Batch → Batch
after_held item sent batch = record batch { sent_ids = batch.sent_ids ++ item.id ∷ [] }
after_held item waiting batch = batch
after_held item (failed auth why) batch = record batch { losses = batch.losses + one_if auth }

-- The loop over the messages, one delivery after the other.
unfoldable pub send_each :
    Deliver → (Held → SendOutcome → Batch → Batch) → List Held → Batch → Batch
send_each deliver after [] batch = batch
send_each deliver after (item ∷ items) batch =
    let delivery = deliver item batch.scheduled in
    send_each deliver after items
      (after item delivery.outcome (record batch { scheduled = delivery.scheduled }))

unfoldable pub remove_all : ScheduledOutbox → List Text → ScheduledOutbox
remove_all scheduled [] = scheduled
remove_all scheduled (id ∷ ids) = remove_all (remove_scheduled scheduled id) ids

unfoldable pub save_rescued : Drafts → List Draft → Drafts
save_rescued drafts [] = drafts
save_rescued drafts (d ∷ rescued) = save_rescued (upsert_draft drafts d) rescued

abbrev pub draft_ids : List Draft → List Text
draft_ids = map {A = Draft} (λ d. d.id)

abbrev pub is_nil {ℓ} : {A : Type ℓ} → List A → Bool
is_nil [] = true
is_nil (x ∷ xs) = false

abbrev pub is_free : List Text → Held → Bool
is_free in_flight item = not (has_text item.id in_flight)

abbrev pub new_batch : ScheduledOutbox → Batch
new_batch scheduled = record {
  scheduled = scheduled;
  sent_ids = [];
  rescued = [];
  reason = none;
  losses = 0;
}

-- forget(ids)
unfoldable pub forget : List Text → SchedulerState → SchedulerState
forget [] state = state
forget (id ∷ ids) state = record state {
  scheduled = remove_all state.scheduled (id ∷ ids);
  saved_outbox = remove_all state.scheduled (id ∷ ids);
}

-- The messages that wait for a key and that no delivery has under way.
abbrev pub waiting_for_key : Locale → SchedulerState → List Held
waiting_for_key loc state =
    filter (λ (item : Held). is_awaiting_key (hold_reason item) && is_free state.in_flight item)
      (list_scheduled loc state.scheduled)

abbrev pub concat_map {ℓ κ} : {A : Type ℓ} {B : Type κ} → (A → List B) → List A → List B
concat_map f [] = []
concat_map f (x ∷ xs) = f x ++ concat_map f xs

module _ (loc : Locale) (deliver : Deliver) (discover : List Text → Keyring → Keyring) where
  unfoldable pub look_up : ℕ → SchedulerState → SchedulerState
  look_up ms state =
      if leb (state.last_directory_retry + held_lookup_interval_ms) ms
      then record state {
        last_directory_retry = ms;
        keyring =
            discover
              (concat_map (λ (item : Held). still_pending loc item state.keyring state.identity)
                (waiting_for_key loc state))
              state.keyring;
      }
      else state

  abbrev pub ready : SchedulerState → List Held
  ready state =
      filter (is_free state.in_flight)
        (resolvable_held loc state.scheduled state.keyring state.identity)

  unfoldable pub send_ready : SchedulerState → SchedulerState
  send_ready state =
      let batch = send_each deliver after_held (ready state) (new_batch state.scheduled) in
      forget batch.sent_ids (record state {
        scheduled = batch.scheduled;
        auth_losses = state.auth_losses + batch.losses;
      })

  unfoldable pub drain_held : ℕ → SchedulerState → SchedulerState
  drain_held ms state =
      if is_nil (waiting_for_key loc state) then state else send_ready (look_up ms state)

  abbrev pub due : Text → SchedulerState → List Held
  due now state = filter (is_free state.in_flight) (due_scheduled loc state.scheduled now)

  abbrev pub notice_of : Batch → Option Notice → Option Notice
  notice_of batch error =
      if is_nil batch.rescued
      then error
      else some (record { count = length batch.rescued; reason = batch.reason })

  -- What the end of a tick stores, against the state as the deliveries left it.
  unfoldable pub finish : Batch → SchedulerState → SchedulerState
  finish batch state =
      let scheduled =
        remove_all (remove_all batch.scheduled batch.sent_ids) (draft_ids batch.rescued) in
      let drafts = save_rescued state.drafts batch.rescued in
      record state {
        scheduled = scheduled;
        saved_outbox = scheduled;
        drafts = drafts;
        saved_drafts = if is_nil batch.rescued then state.saved_drafts else drafts;
        error = notice_of batch state.error;
        auth_losses = state.auth_losses + batch.losses;
        refreshes = if is_nil batch.sent_ids then state.refreshes else state.refreshes + 1;
      }

  unfoldable pub send_due : Text → SchedulerState → SchedulerState
  send_due now state =
      if is_nil (due now state)
      then state
      else finish (send_each deliver (after_due now) (due now state) (new_batch state.scheduled))
          state

  unfoldable pub run : ℕ → Text → SchedulerState → SchedulerState
  run ms now state = send_due now (drain_held ms state)
