-- ===== src/Scheduler/Whole.antt =====
-- What the deliveries of a tick, and its end, do to what a message says (app/src/state/scheduler.ts).
use crypt_mail.Prelude.{
  ◌≡◌, refl, sym, ap, ◌∙◌, subst, ◌⊎◌, inl, inr, true, false, none, some, List, [], ◌∷◌, arith,
  Bool-cases, In, In-append, Text, text_eq, text_eq_iff, has_text, lookup, insert, remove, values,
  lookup-insert, lookup-remove,
}
use crypt_mail.Drafts.{Draft, Drafts, DraftFields, upsert_draft}
use crypt_mail.Outbox.{Held, ScheduledOutbox, remove_scheduled}
use crypt_mail.Scheduler.{
  SendOutcome, Deliver, SchedulerState, Batch, sent, waiting, failed, rescue, after_due, send_each,
  remove_all, save_rescued, draft_ids, forget,
}
use crypt_mail.Scheduler.Delivering.{IsFair, WentOut}

-- Whom a message is for, what it says, its files and its thread.
abbrev pub content_of : Held → DraftFields
content_of item = record {
  to = item.to;
  subject = item.subject;
  body = item.body;
  html = item.html;
  attachments = item.attachments;
  attachments_omitted = none;
  in_reply_to = item.in_reply_to;
  references = item.references;
}

-- All messages of the id say this.
abbrev pub AllSay : Text → DraftFields → List Held → Type 0
AllSay id content items = (item : Held) → In item items → item.id ≡ id → content_of item ≡ content

-- A message that says this stands under the id.
abbrev pub StandsIn : Text → DraftFields → ScheduledOutbox → Type 0
StandsIn id content outbox =
    (item : Held) × (lookup id outbox ≡ some item) × (content_of item ≡ content)

abbrev pub Holds : Text → DraftFields → ScheduledOutbox → Type 0
Holds id content outbox = StandsIn id content outbox × AllSay id content (values outbox)

-- A draft that says this is kept under the id.
abbrev pub IsDrafted : Text → DraftFields → Drafts → Type 0
IsDrafted id content drafts = (d : Draft) × (lookup id drafts ≡ some d) × (d.fields ≡ content)

abbrev pub AllDrafted : Text → DraftFields → List Draft → Type 0
AllDrafted id content rescued = (d : Draft) → In d rescued → d.id ≡ id → d.fields ≡ content

-- Sending a message takes no message out of the outbox, and puts one there only as it is given.
abbrev pub KeepsContent : Deliver → Type 0
KeepsContent deliver =
    (item : Held) (outbox : ScheduledOutbox) (id : Text) (content : DraftFields)
    → (item.id ≡ id → content_of item ≡ content)
    → Holds id content outbox
    → Holds id content (deliver item outbox).scheduled

-- A delivery of a message that has the id and says this came back with `sent`.
abbrev pub WentOutAs : Deliver → List Held → Text → DraftFields → Type 0
WentOutAs deliver items id content =
    (item : Held) × (outbox : ScheduledOutbox) × In item items
    × (item.id ≡ id)
    × (content_of item ≡ content)
    × ((deliver item outbox).outcome ≡ sent)

values-insert :
    (k : Text) (v x : Held) (m : ScheduledOutbox)
    → In x (values (insert k v m))
    → (x ≡ v) ⊎ In x (values m)
unfolding values insert
values-insert k v x [] (inl e) = inl e
values-insert k v x [] (inr never) = absurd never
values-insert k v x ((j, w) ∷ m) h = elim (Bool-cases (text_eq j k)) [
  | inl e ↦ elim (simp e at h) [ inl now ↦ inl now | inr later ↦ inr (inr later) ]
  | inr n ↦ elim (simp n at h) [
    | inl here ↦ inr (inl here)
    | inr later ↦ elim (values-insert k v x m later) [ inl e ↦ inl e | inr i ↦ inr (inr i) ]
  ]
]

values-remove :
    (k : Text) (x : Held) (m : ScheduledOutbox) → In x (values (remove k m)) → In x (values m)
unfolding values remove
values-remove k x [] h = absurd h
values-remove k x ((j, w) ∷ m) h = elim (Bool-cases (text_eq j k)) [
  | inl e ↦ inr (values-remove k x m (simp e at h))
  | inr n ↦ elim (simp n at h) [ inl here ↦ inl here | inr later ↦ inr (values-remove k x m later) ]
]

module _ (id : Text) (content : DraftFields) where
  pub insert-Holds :
      (item : Held) (outbox : ScheduledOutbox)
      → (item.id ≡ id → content_of item ≡ content)
      → Holds id content outbox
      → Holds id content (insert item.id item outbox)
  insert-Holds item outbox says ((old, e, c), all) = (
    elim (Bool-cases (text_eq item.id id)) [
      | inl same ↦ (
        item,
        lookup-insert item.id id item outbox ∙ simp same refl,
        says ((text_eq_iff item.id id).0 same),
      )
      | inr other ↦ (old, lookup-insert item.id id item outbox ∙ simp other e, c)
    ],
    λ x i same. elim (values-insert item.id item x outbox i) [
      | inl new ↦ ap content_of new ∙ says (ap (λ (h : Held). h.id) (sym new) ∙ same)
      | inr before ↦ all x before same
    ],
  )

  pub remove_all-Holds :
      (outbox : ScheduledOutbox) (ids : List Text)
      → has_text id ids ≡ false
      → Holds id content outbox
      → Holds id content (remove_all outbox ids)
  unfolding remove_all remove_scheduled has_text
  remove_all-Holds outbox [] n h = h
  remove_all-Holds outbox (j ∷ ids) n ((item, e, c), all) =
      let other : text_eq j id ≡ false = ground arith in
      let rest : has_text id ids ≡ false = ground arith in
      remove_all-Holds (remove j outbox) ids rest (
        (item, lookup-remove j id outbox ∙ simp other e, c),
        λ x i. all x (values-remove j x outbox i),
      )

  pub forget-Holds :
      (ids : List Text) (state : SchedulerState)
      → Holds id content state.scheduled
      → Holds id content (forget ids state).scheduled ⊎ (has_text id ids ≡ true)
  unfolding forget
  forget-Holds [] state h = inl h
  forget-Holds (j ∷ ids) state h = elim (Bool-cases (has_text id (j ∷ ids))) [
    | inl e ↦ inr e
    | inr n ↦ inl (remove_all-Holds state.scheduled (j ∷ ids) n h)
  ]

  pub save_rescued-kept :
      (drafts : Drafts) (rescued : List Draft)
      → AllDrafted id content rescued
      → IsDrafted id content drafts ⊎ (has_text id (draft_ids rescued) ≡ true)
      → IsDrafted id content (save_rescued drafts rescued)
  unfolding save_rescued upsert_draft has_text
  save_rescued-kept drafts [] all (inl d) = d
  save_rescued-kept drafts [] all (inr never) = absurd (cc never)
  save_rescued-kept drafts (d ∷ rescued) all h =
      save_rescued-kept (insert d.id d drafts) rescued (λ x i. all x (inr i))
        (elim (Bool-cases (text_eq d.id id)) [
          | inl same ↦ inl (
            d,
            lookup-insert d.id id d drafts ∙ simp same refl,
            all d (inl refl) ((text_eq_iff d.id id).0 same),
          )
          | inr other ↦ elim h [
            | inl (old, e, c) ↦ inl (old, lookup-insert d.id id d drafts ∙ simp other e, c)
            | inr listed ↦ inr (ground arith)
          ]
        ])

  after_due-AllDrafted :
      (at : Text) (item : Held) (outcome : SendOutcome) (batch : Batch)
      → (item.id ≡ id → content_of item ≡ content)
      → AllDrafted id content batch.rescued
      → AllDrafted id content (after_due at item outcome batch).rescued
  unfolding after_due rescue
  after_due-AllDrafted at item sent batch says all = all
  after_due-AllDrafted at item waiting batch says all = all
  after_due-AllDrafted at item (failed auth why) batch says all = λ d i same.
      elim (In-append d batch.rescued (rescue at why item ∷ []) i) [
        | inl before ↦ all d before same
        | inr (inl new) ↦
            ap (λ (d : Draft). d.fields) new ∙ says (ap (λ (d : Draft). d.id) (sym new) ∙ same)
        | inr (inr never) ↦ absurd never
      ]

  module _ (deliver : Deliver) (keeps : KeepsContent deliver) where
    pub send_each-Holds :
        (after : Held → SendOutcome → Batch → Batch) (items : List Held) (batch : Batch)
        → IsFair after
        → AllSay id content items
        → Holds id content batch.scheduled
        → Holds id content (send_each deliver after items batch).scheduled
    unfolding send_each
    send_each-Holds after [] batch fair all h = h
    send_each-Holds after (item ∷ items) batch fair all h =
        send_each-Holds after items
          (after item (deliver item batch.scheduled).outcome
            (record batch { scheduled = (deliver item batch.scheduled).scheduled }))
          fair (λ x i. all x (inr i))
          (subst (Holds id content)
            (sym (
              fair.outbox item (deliver item batch.scheduled).outcome
                (record batch { scheduled = (deliver item batch.scheduled).scheduled })))
            (keeps item batch.scheduled id content (all item (inl refl)) h))

    pub send_each-AllDrafted :
        (at : Text) (items : List Held) (batch : Batch)
        → AllSay id content items
        → AllDrafted id content batch.rescued
        → AllDrafted id content (send_each deliver (after_due at) items batch).rescued
    unfolding send_each
    send_each-AllDrafted at [] batch all d = d
    send_each-AllDrafted at (item ∷ items) batch all d =
        send_each-AllDrafted at items
          (after_due at item (deliver item batch.scheduled).outcome
            (record batch { scheduled = (deliver item batch.scheduled).scheduled }))
          (λ x i. all x (inr i))
          (after_due-AllDrafted at item (deliver item batch.scheduled).outcome
            (record batch { scheduled = (deliver item batch.scheduled).scheduled })
            (all item (inl refl)) d)

    pub WentOut-WentOutAs :
        (items : List Held)
        → AllSay id content items
        → WentOut deliver items id
        → WentOutAs deliver items id content
    WentOut-WentOutAs items all (item, box, i, e, s) = (item, box, i, e, all item i e, s)
