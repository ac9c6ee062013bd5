-- ===== src/Outbox/Release.antt =====
-- Which held messages go, and which never do.
use crypt_mail.Prelude.{
  ◌≡◌, refl, ap, ◌≢◌, ◌↔◌, ◌⊎◌, inl, inr, true, false, Option, none, some, some_injective, List, [],
  ◌∷◌, map, arith, Bool-cases, &&-eq-true, length, filter, In, In-filter, filter-In, Text, text_leb,
  lookup, values, IsSorted, In-sort_by, sort_by-In, length-sort_by, sort_by-IsSorted, Locale,
  canonical, IsCollation,
}
use crypt_mail.Keyring.{Source, PublicKeyInfo, ContactKey, Keyring, upsert_key, no_evidence}
use crypt_mail.Keyring.Upsert.{NotSetAside}
use crypt_mail.Recipients.{
  Identity, Status, ok, verified, missing, changed, RecipientState, is_own, resolve_recipient,
  resolve_recipient_states,
}
use crypt_mail.Recipients.Blocking.{upsert_key-changed}
use crypt_mail.Outbox.{
  Held, HoldReason, ScheduledOutbox, reason_or_time, send_at_le, list_scheduled, hold_reason,
  is_awaiting_key, is_due, due_scheduled, is_pending, still_pending, is_nil, is_resolvable,
  resolvable_held, time, awaiting_key, awaiting_session,
}

In-list_scheduled :
    (loc : Locale) (outbox : ScheduledOutbox) (item : Held)
    → In item (list_scheduled loc outbox) ↔ In item (values outbox)
unfolding list_scheduled
In-list_scheduled loc outbox item = (
  In-sort_by (send_at_le loc) item (values outbox),
  sort_by-In (send_at_le loc) item (values outbox),
)

-- The list holds exactly the messages of the outbox, by send time, soonest first.
pub list_scheduled-IsSorted :
    (loc : Locale) (outbox : ScheduledOutbox)
    → IsCollation loc
    → IsSorted (send_at_le loc) (list_scheduled loc outbox)
      × (length (list_scheduled loc outbox) ≡ length (values outbox))
      × ((item : Held) → In item (list_scheduled loc outbox) ↔ In item (values outbox))
unfolding list_scheduled
list_scheduled-IsSorted loc outbox c = (
  sort_by-IsSorted (send_at_le loc)
      (record {
        total = λ a b h. c.order.total a.send_at b.send_at h;
        trans = λ a b d h k. c.order.trans a.send_at b.send_at d.send_at h k;
      })
      (values outbox),
  length-sort_by (send_at_le loc) (values outbox),
  In-list_scheduled loc outbox,
)

-- A message is due exactly when it is in the outbox, waits for its time, and the time has come.
pub due_scheduled_iff :
    (loc : Locale) (outbox : ScheduledOutbox) (now : Text) (item : Held)
    → In item (due_scheduled loc outbox now)
      ↔ (In item (values outbox) × (hold_reason item ≡ time) × (text_leb item.send_at now ≡ true))
unfolding due_scheduled
due_scheduled_iff loc outbox now item = (
  (λ h.
      let (listed, passed) = In-filter (is_due now) item (list_scheduled loc outbox) h in
      ((In-list_scheduled loc outbox item).0 listed, ground arith, ground arith)),
  (λ h.
      filter-In (is_due now) item (list_scheduled loc outbox)
        ((In-list_scheduled loc outbox item).1 h.0) (rw (h.1, h.2))),
)

-- No recipient blocks exactly when nobody is pending.
pending-none :
    (loc : Locale) (keyring : Keyring) (identity : Option Identity) (emails : List Text)
    → is_nil (
        map
          (λ (r : RecipientState). r.email)
          (filter
            (λ (r : RecipientState). is_pending r.status)
            (resolve_recipient_states loc keyring identity emails)))
      ≡ true
    → (email : Text) → In email emails
    → is_pending (resolve_recipient loc keyring identity email).status ≡ false
unfolding resolve_recipient_states
pending-none loc keyring identity [] h email m = absurd m
pending-none loc keyring identity (e ∷ es) h email m =
    elim (Bool-cases (is_pending (resolve_recipient loc keyring identity e).status)) [
      | inl p ↦ absurd (cc (simp p at h))
      | inr n ↦ elim m [
        | inl same ↦ rw same n
        | inr rest ↦ pending-none loc keyring identity es (simp n at h) email rest
      ]
    ]

none-pending :
    (loc : Locale) (keyring : Keyring) (identity : Option Identity) (emails : List Text)
    → ((email : Text)
        → In email emails
        → is_pending (resolve_recipient loc keyring identity email).status ≡ false)
    → is_nil (
        map
          (λ (r : RecipientState). r.email)
          (filter
            (λ (r : RecipientState). is_pending r.status)
            (resolve_recipient_states loc keyring identity emails)))
      ≡ true
unfolding resolve_recipient_states
none-pending loc keyring identity [] h = refl
none-pending loc keyring identity (e ∷ es) h =
    simp (h e (inl refl)) (none-pending loc keyring identity es (λ email m. h email (inr m)))

-- With the test of the code for a recipient that holds a message back.
resolvable_held_pending :
    (loc : Locale) (outbox : ScheduledOutbox) (keyring : Keyring) (identity : Option Identity)
    (item : Held)
    → In item (resolvable_held loc outbox keyring identity) ↔ (
        In item (values outbox)
        × (hold_reason item ≡ awaiting_key)
        × ((email : Text)
            → In email item.to
            → is_pending (resolve_recipient loc keyring identity email).status ≡ false))
unfolding resolvable_held still_pending
resolvable_held_pending loc outbox keyring identity item = (
  (λ h.
      let (listed, passed) =
        In-filter (is_resolvable loc keyring identity) item (list_scheduled loc outbox) h in
      let (waits, free) =
        &&-eq-true (is_awaiting_key (hold_reason item))
          (is_nil (still_pending loc item keyring identity)) passed in
      (
        (In-list_scheduled loc outbox item).0 listed,
        ground arith,
        pending-none loc keyring identity item.to free,
      )),
  (λ h.
      filter-In (is_resolvable loc keyring identity) item (list_scheduled loc outbox)
        ((In-list_scheduled loc outbox item).1 h.0)
        (rw (h.1) (none-pending loc keyring identity item.to h.2))),
)

is_pending_iff :
    (status : Status) → (is_pending status ≡ false) ↔ (status ≢ missing) × (status ≢ changed)
is_pending_iff ok = ((λ h. ((λ e. cc e), (λ e. cc e))), (λ h. refl))
is_pending_iff verified = ((λ h. ((λ e. cc e), (λ e. cc e))), (λ h. refl))
is_pending_iff Status.changed = ((λ h. absurd (cc h)), (λ h. absurd (h.1 refl)))
is_pending_iff missing = ((λ h. absurd (cc h)), (λ h. absurd (h.0 refl)))

reason_or_time-awaiting_key :
    (reason : Option HoldReason)
    → (reason_or_time reason ≡ awaiting_key) ↔ (reason ≡ some awaiting_key)
reason_or_time-awaiting_key none = ((λ h. absurd (cc h)), (λ h. absurd (cc h)))
reason_or_time-awaiting_key (some reason) =
    ((λ h. ap some h), (λ h. some_injective reason awaiting_key h))

-- A message is released to be sent exactly when it is in the outbox, is held there for a key, and no
-- recipient's key is missing or changed.
pub resolvable_held_iff :
    (loc : Locale) (outbox : ScheduledOutbox) (keyring : Keyring) (identity : Option Identity)
    (item : Held)
    → In item (resolvable_held loc outbox keyring identity) ↔ (
        In item (values outbox)
        × (item.reason ≡ some awaiting_key)
        × ((email : Text)
            → In email item.to
            → ((resolve_recipient loc keyring identity email).status ≢ missing)
              × ((resolve_recipient loc keyring identity email).status ≢ changed)))
unfolding hold_reason
resolvable_held_iff loc outbox keyring identity item = (
  (λ h.
      let (filed, waits, free) = (resolvable_held_pending loc outbox keyring identity item).0 h in
      (
        filed,
        (reason_or_time-awaiting_key item.reason).0 waits,
        λ email m.
            (is_pending_iff (resolve_recipient loc keyring identity email).status).0 (free email m),
      )),
  (λ h. (resolvable_held_pending loc outbox keyring identity item).1 (
    h.0,
    (reason_or_time-awaiting_key item.reason).1 h.1,
    λ email m.
        (is_pending_iff (resolve_recipient loc keyring identity email).status).1 (h.2 email m),
  )),
)

hold_reason_retired :
    (item : Held)
    → item.reason ≡ some awaiting_session
    → (hold_reason item ≡ time) ⊎ (hold_reason item ≡ awaiting_key)
    → ⊥
unfolding hold_reason
hold_reason_retired item retired h = ground arith

-- The clock never releases a message that waits for a key: no message is both due and resolvable,
-- and one of a retired kind of hold is neither.
pub release_disjoint :
    (loc : Locale) (outbox : ScheduledOutbox) (keyring : Keyring) (identity : Option Identity)
    (now : Text) (item : Held)
    → (In item (due_scheduled loc outbox now)
        → In item (resolvable_held loc outbox keyring identity)
        → ⊥)
      × (item.reason ≡ some awaiting_session
          → (In item (due_scheduled loc outbox now) → ⊥)
            × (In item (resolvable_held loc outbox keyring identity) → ⊥))
release_disjoint loc outbox keyring identity now item = (
  (λ d r. cc (
    ((due_scheduled_iff loc outbox now item).0 d).1,
    ((resolvable_held_pending loc outbox keyring identity item).0 r).1,
  )),
  (λ retired. (
    (λ d. hold_reason_retired item retired (inl ((due_scheduled_iff loc outbox now item).0 d).1)),
    (λ r.
        hold_reason_retired item retired
          (inr ((resolvable_held_pending loc outbox keyring identity item).0 r).1)),
  )),
)

-- A key substitution stops a held message: after a key arrived without proof under another
-- fingerprint, not set aside by the user, for an address of another that is one of its recipients,
-- the message is not released.
pub upsert_key-unresolvable :
    (loc : Locale) (outbox : ScheduledOutbox) (ring : Keyring) (identity : Option Identity)
    (key : PublicKeyInfo) (source : Source) (name : Option Text) (now email : Text)
    (old : ContactKey) (item : Held)
    → lookup key.email ring ≡ some old
    → old.fingerprint ≢ key.fingerprint
    → NotSetAside key.fingerprint old
    → canonical loc email ≡ key.email
    → is_own loc identity email ≡ false
    → In email item.to
    → In item
        (resolvable_held loc outbox (upsert_key ring key source name no_evidence now) identity)
    → ⊥
upsert_key-unresolvable loc outbox ring identity key source name now email old item found n q spelt
      foreign m r =
    let free =
      ((resolvable_held_pending loc outbox (upsert_key ring key source name no_evidence now)
            identity item).0
          r).2
        email m in
    let stopped =
      upsert_key-changed loc ring identity key source name now email old found n q spelt foreign in
    cc (ap is_pending stopped, free)
