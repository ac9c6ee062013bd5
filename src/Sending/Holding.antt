-- ===== src/Sending/Holding.antt =====
-- What a delivery leaves in the outbox (app/src/state/send.ts, deliver).
use crypt_mail.Prelude.{
  ◌≡◌, refl, sym, ◌∙◌, subst, inl, inr, Option, none, some, List, [], ◌∷◌, ◌++◌, Bool-cases, filter,
  Text, insert, Locale,
}
use crypt_mail.Recipients.{Identity}
use crypt_mail.Outbox.{awaiting_key, Held, upsert_scheduled}
use crypt_mail.Sending.{hold_and_invite, recipients_of, looked_up, deliver}
use crypt_mail.Sending.Parts.{
  Result, Outcome, queued, is_status_missing, emails_of, id_or, held_for, hold_back, hand_over,
  after_handing,
}
use crypt_mail.Sending.Types.{SendInput, World, SendState, Rejection}
use crypt_mail.Sending.Invites.{InviteRun, new_run, invite_each, store_run, send_invites}
use crypt_mail.Sending.Outcomes.{IsDelivery, deliver-IsEnd}

abbrev pub IsIdFrom : Option Text → Text → Text → Type 0
IsIdFrom none new id = id ≡ new
IsIdFrom (some given) new id = id ≡ given

-- The message with all its parts, to wait for the keys of the recipients `pending`.
abbrev pub IsWhole : World → SendInput → List Text → Held → Type 0
IsWhole world input pending item =
    IsIdFrom input.id world.new_id item.id
    × (item.to ≡ input.to)
    × (item.subject ≡ input.subject)
    × (item.body ≡ input.body)
    × (item.html ≡ input.html)
    × (item.attachments ≡ input.attachments)
    × (item.in_reply_to ≡ input.in_reply_to)
    × (item.references ≡ input.references)
    × (item.level ≡ input.level)
    × (item.reason ≡ some awaiting_key)
    × (item.pending ≡ some pending)

-- What an outcome leaves in the outbox, in memory and stored: a queued message, and else what was there.
abbrev pub LeavesOutbox : World → SendInput → SendState → Outcome → SendState → Type 0
LeavesOutbox world input before (queued pending) after =
    (item : Held) × IsWhole world input pending item
    × (after.scheduled ≡ insert item.id item before.scheduled)
    × (after.saved_outbox ≡ after.scheduled)
LeavesOutbox world input before _ after =
    (after.scheduled ≡ before.scheduled) × (after.saved_outbox ≡ before.saved_outbox)

store_run-outbox :
    (loc : Locale) (world : World) (sender armored : Text) (gathered : InviteRun)
    (state : SendState)
    → ((store_run loc world sender armored gathered state).scheduled ≡ state.scheduled)
      × ((store_run loc world sender armored gathered state).saved_outbox ≡ state.saved_outbox)
unfolding store_run
store_run-outbox loc world sender armored gathered state = elim (Bool-cases gathered.recorded) [
  | inl e ↦ simp e (refl, refl)
  | inr n ↦ simp n (refl, refl)
]

id_or-IsIdFrom : (given : Option Text) (new : Text) → IsIdFrom given new (id_or given new)
id_or-IsIdFrom none new = refl
id_or-IsIdFrom (some id) new = refl

held_for-IsWhole :
    (world : World) (input : SendInput) (pending : List Text)
    → IsWhole world input pending (held_for world input pending)
unfolding held_for
held_for-IsWhole world input pending = (
  id_or-IsIdFrom input.id world.new_id,
  refl,
  refl,
  refl,
  refl,
  refl,
  refl,
  refl,
  refl,
  refl,
  refl,
)

pub hold_and_invite-LeavesOutbox :
    (loc : Locale) (world : World) (sender : Text) (me : Identity) (input : SendInput)
    (pending : List Text) (state : SendState)
    → LeavesOutbox world input state
        (queued pending)
        (hold_and_invite loc world sender me input pending state).state
unfolding hold_and_invite send_invites hold_back upsert_scheduled
hold_and_invite-LeavesOutbox loc world sender me input pending state =
    let same =
      store_run-outbox loc world sender me.public_key_armored
        (invite_each loc world sender me.public_key_armored pending (new_run state))
        (hold_back (held_for world input pending) state) in
    (
      held_for world input pending,
      held_for-IsWhole world input pending,
      same.0,
      same.1 ∙ sym same.0,
    )

after_handing-LeavesOutbox :
    (world : World) (input : SendInput) (before state : SendState) (answer : Option Rejection)
    → state.scheduled ≡ before.scheduled
    → state.saved_outbox ≡ before.saved_outbox
    → LeavesOutbox world input before
        (after_handing answer state).outcome
        (after_handing answer state).state
after_handing-LeavesOutbox world input before state none s t = (s, t)
after_handing-LeavesOutbox world input before state (some rejection) s t = (s, t)

hand_over-LeavesOutbox :
    (world : World) (input : SendInput) (message : Text) (before state : SendState)
    → state.scheduled ≡ before.scheduled
    → state.saved_outbox ≡ before.saved_outbox
    → LeavesOutbox world input before
        (hand_over world message state).outcome
        (hand_over world message state).state
unfolding hand_over
hand_over-LeavesOutbox world input message before state s t =
    after_handing-LeavesOutbox world input before
      (record state { handed = state.handed ++ message ∷ [] }) (world.accept state.handed message) s
      t

IsDelivery-LeavesOutbox :
    (loc : Locale) (world : World) (sender : Text) (me : Identity) (input : SendInput)
    (state : SendState) (result : Result)
    → IsDelivery loc world sender me input state result
    → LeavesOutbox world input state result.outcome result.state
unfolding hold_and_invite
IsDelivery-LeavesOutbox loc world sender me input state result (inl (refusal, keyring, e, found)) =
    subst (λ (r : Result). LeavesOutbox world input state r.outcome r.state) (sym e) (refl, refl)
IsDelivery-LeavesOutbox loc world sender me input state result (inr (inl (e, _, _))) =
    subst (λ (r : Result). LeavesOutbox world input state r.outcome r.state) (sym e)
      (hold_and_invite-LeavesOutbox loc world sender me input
        (emails_of (filter is_status_missing (recipients_of loc world sender me input state)))
        (looked_up loc world sender me input state))
IsDelivery-LeavesOutbox loc world sender me input state result
      (inr (inr (archived, armored, level, message, _, _, e))) =
    subst (λ (r : Result). LeavesOutbox world input state r.outcome r.state) (sym e)
      (hand_over-LeavesOutbox world input message state
        (record state { keyring = world.discover input.to state.keyring; archived = archived }) refl
        refl)

-- What `deliver` leaves in the outbox, on every outcome: a queued message stands there whole under its id,
-- or under a new one where it has none, to wait for a key, with the recipients, the subject, both bodies, the
-- attachments, the thread and the level of the input and the recipients it waits for, in memory as stored, and
-- the other messages as they were; after any other outcome, errors included, the outbox is what it was.
pub deliver-LeavesOutbox :
    (loc : Locale) (world : World) (input : SendInput) (state : SendState)
    → LeavesOutbox world input state
        (deliver loc world input state).outcome
        (deliver loc world input state).state
deliver-LeavesOutbox loc world input state = elim (deliver-IsEnd loc world input state) [
  | inl e ↦
      subst (λ (r : Result). LeavesOutbox world input state r.outcome r.state) (sym e) (refl, refl)
  | inr (sender, me, s, i, d) ↦
      IsDelivery-LeavesOutbox loc world sender me input state (deliver loc world input state) d
]
