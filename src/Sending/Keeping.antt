-- ===== src/Sending/Keeping.antt =====
-- What a delivery of a held message keeps in the outbox, so that it may stand for the scheduler's `Deliver`
-- (app/src/state/send.ts, app/src/state/scheduler.ts).
use crypt_mail.Prelude.{
  ◌≡◌, refl, sym, ap, ◌∙◌, subst, inl, inr, true, Bool-cases, List, Text, text_eq, insert,
  lookup-insert, Locale,
}
use crypt_mail.Drafts.{DraftFields}
use crypt_mail.Outbox.{Held, ScheduledOutbox}
use crypt_mail.Scheduler.Delivering.{is_stored, is_given, KeepsOutbox}
use crypt_mail.Scheduler.Whole.{content_of, Holds, insert-Holds, KeepsContent}
use crypt_mail.Sending.{deliver, deliver_held, input_of}
use crypt_mail.Sending.Parts.{Outcome, queued, refused, sent}
use crypt_mail.Sending.Types.{SendInput, World, SendState}
use crypt_mail.Sending.Holding.{IsWhole, LeavesOutbox, deliver-LeavesOutbox}

is_stored-insert :
    (id : Text) (outbox : ScheduledOutbox) (item : Held)
    → is_stored id outbox ≡ true
    → is_stored id (insert item.id item outbox) ≡ true
is_stored-insert id outbox item h =
    ap is_given (lookup-insert item.id id item outbox)
    ∙ elim (Bool-cases (text_eq item.id id)) [ inl e ↦ simp e | inr n ↦ simp n h ]

LeavesOutbox-is_stored :
    (world : World) (input : SendInput) (before : SendState) (outcome : Outcome) (after : SendState)
    (id : Text)
    → LeavesOutbox world input before outcome after
    → is_stored id before.scheduled ≡ true
    → is_stored id after.scheduled ≡ true
LeavesOutbox-is_stored world input before (queued pending) after id (item, whole, filed, stored) h =
    ap (is_stored id) filed ∙ is_stored-insert id before.scheduled item h
LeavesOutbox-is_stored world input before sent after id l h = ap (is_stored id) l.0 ∙ h
LeavesOutbox-is_stored world input before (refused refusal) after id l h = ap (is_stored id) l.0 ∙ h

-- The send path is what the scheduler asks of the delivery it is given: it takes no message out of the
-- outbox.
pub deliver_held-KeepsOutbox :
    (loc : Locale) (world : World) (state : SendState) → KeepsOutbox (deliver_held loc world state)
unfolding deliver_held
deliver_held-KeepsOutbox loc world state item scheduled id h =
    LeavesOutbox-is_stored world (input_of item) (record state { scheduled = scheduled })
      (deliver loc world (input_of item) (record state { scheduled = scheduled })).outcome
      (deliver loc world (input_of item) (record state { scheduled = scheduled })).state id
      (deliver-LeavesOutbox loc world (input_of item) (record state { scheduled = scheduled })) h

-- What was put back says what was given.
IsWhole-content_of :
    (world : World) (item : Held) (pending : List Text) (back : Held)
    → IsWhole world (input_of item) pending back
    → content_of back ≡ content_of item
unfolding input_of
IsWhole-content_of world item pending back
      (same, to, subject, body, html, attachments, in_reply_to, references, level, reason, waits) =
    rw (to, subject, body, html, attachments, in_reply_to, references) refl

LeavesOutbox-Holds :
    (world : World) (item : Held) (before : SendState) (outcome : Outcome) (after : SendState)
    (id : Text) (content : DraftFields)
    → LeavesOutbox world (input_of item) before outcome after
    → (item.id ≡ id → content_of item ≡ content)
    → Holds id content before.scheduled
    → Holds id content after.scheduled
unfolding input_of
LeavesOutbox-Holds world item before (queued pending) after id content (back, whole, filed, stored)
      says h =
    subst (Holds id content) (sym filed) (
      insert-Holds id content back before.scheduled
        (λ same. IsWhole-content_of world item pending back whole ∙ says (sym (whole.0) ∙ same)) h)
LeavesOutbox-Holds world item before sent after id content l says h =
    subst (Holds id content) (sym (l.0)) h
LeavesOutbox-Holds world item before (refused refusal) after id content l says h =
    subst (Holds id content) (sym (l.0)) h

-- Delivering a held message, whatever comes of it, keeps what the outbox holds: the recipients, the subject,
-- both bodies, the attachments and the thread that stand there under an id still do afterwards, where the
-- message delivered and all messages of that id agree on them; so a message that has to wait again is put
-- back with all that it says.
pub deliver-Holds :
    (loc : Locale) (world : World) (item : Held) (state : SendState) (id : Text)
    (content : DraftFields)
    → (item.id ≡ id → content_of item ≡ content)
    → Holds id content state.scheduled
    → Holds id content (deliver loc world (input_of item) state).state.scheduled
deliver-Holds loc world item state id content =
    LeavesOutbox-Holds world item state (deliver loc world (input_of item) state).outcome
      (deliver loc world (input_of item) state).state id content
      (deliver-LeavesOutbox loc world (input_of item) state)

-- The send path is what a tick asks of the delivery that it is given.
pub deliver_held-KeepsContent :
    (loc : Locale) (world : World) (state : SendState) → KeepsContent (deliver_held loc world state)
unfolding deliver_held
deliver_held-KeepsContent loc world state item outbox id content says h =
    deliver-Holds loc world item (record state { scheduled = outbox }) id content says h
