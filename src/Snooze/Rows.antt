-- ===== src/Snooze/Rows.antt =====
-- The Snoozed folder and the inbox never both claim a message.
use crypt_mail.Prelude.{
  ◌≡◌, refl, sym, ap, subst, ◌≢◌, ◌↔◌, inl, inr, true, some, List, [], ◌∷◌, Bool-cases,
  Option-cases, All, In, In-filter, filter-In, All-In, In-map, map-In, Text, text_eq, text_eq_iff,
  text_leb, text_ltb, lookup, insert, remove, values, KeysDistinct, insert-KeysDistinct,
  remove-KeysDistinct, lookup-In, lookup-values, values-In, In-lookup, In-sort_by, sort_by-In,
  Locale,
}
use crypt_mail.Mail.{MailSummary}
use crypt_mail.Snooze.{
  SnoozedMessage, SnoozeMap, upsert_snooze, remove_snooze, until_le, list_snoozed, due_snoozed,
  is_snoozed, SnoozedRow, row_of, snoozed_rows,
}

-- Every entry stands under its own id, once.
pub record IsSnoozeMap (snoozes : SnoozeMap) : Type 0 where
  pub distinct : KeysDistinct snoozes
  pub keyed : All (λ (p : Text × SnoozedMessage). p.1.id ≡ p.0) snoozes

insert-keyed :
    (item : SnoozedMessage) (snoozes : SnoozeMap)
    → All (λ (p : Text × SnoozedMessage). p.1.id ≡ p.0) snoozes
    → All (λ (p : Text × SnoozedMessage). p.1.id ≡ p.0) (insert item.id item snoozes)
unfolding insert
insert-keyed item [] h = (refl, tt)
insert-keyed item ((j, w) ∷ m) h = elim (Bool-cases (text_eq j item.id)) [
  | inl e ↦ rw e (sym ((text_eq_iff j item.id).0 e), h.1)
  | inr n ↦ rw n (h.0, insert-keyed item m h.1)
]

remove-keyed :
    (id : Text) (snoozes : SnoozeMap)
    → All (λ (p : Text × SnoozedMessage). p.1.id ≡ p.0) snoozes
    → All (λ (p : Text × SnoozedMessage). p.1.id ≡ p.0) (remove id snoozes)
unfolding remove
remove-keyed id [] h = tt
remove-keyed id ((j, w) ∷ m) h = elim (Bool-cases (text_eq j id)) [
  | inl e ↦ rw e (remove-keyed id m h.1)
  | inr n ↦ rw n (h.0, remove-keyed id m h.1)
]

-- Snoozing and waking a message keep every entry under its own id, once.
pub snoozes-IsSnoozeMap :
    (snoozes : SnoozeMap) (item : SnoozedMessage) (id : Text)
    → IsSnoozeMap snoozes
    → IsSnoozeMap (upsert_snooze snoozes item) × IsSnoozeMap (remove_snooze snoozes id)
unfolding upsert_snooze remove_snooze
snoozes-IsSnoozeMap snoozes item id v = (
  record {
    distinct = insert-KeysDistinct item.id item snoozes v.distinct;
    keyed = insert-keyed item snoozes v.keyed;
  },
  record {
    distinct = remove-KeysDistinct id snoozes v.distinct;
    keyed = remove-keyed id snoozes v.keyed;
  },
)

entry-lookup :
    (snoozes : SnoozeMap) (entry : SnoozedMessage)
    → IsSnoozeMap snoozes
    → In entry (values snoozes)
    → lookup entry.id snoozes ≡ some entry
entry-lookup snoozes entry v m =
    let (k, found) = values-In entry snoozes m in
    subst (λ i. lookup i snoozes ≡ some entry)
      (sym (All-In (λ (p : Text × SnoozedMessage). p.1.id ≡ p.0) snoozes v.keyed (k, entry) found))
      (In-lookup k entry snoozes v.distinct found)

In-snoozed_rows :
    (loc : Locale) (snoozes : SnoozeMap) (messages : List MailSummary) (now : Text)
    (row : SnoozedRow)
    → In row (snoozed_rows loc snoozes messages now)
    → In row.entry (values snoozes) × (text_ltb now row.entry.until ≡ true)
unfolding snoozed_rows list_snoozed
In-snoozed_rows loc snoozes messages now row h =
    let (entry, listed, e) = In-map (row_of messages) row _ h in
    let (sorted, later) = In-filter (λ x. text_ltb now x.until) entry _ listed in
    (
      subst (λ (r : SnoozedRow). In r.entry (values snoozes)) (sym e)
          (In-sort_by (until_le loc) entry (values snoozes) sorted),
      subst (λ (r : SnoozedRow). text_ltb now r.entry.until ≡ true) (sym e) later,
    )

snoozed_rows-In :
    (loc : Locale) (snoozes : SnoozeMap) (messages : List MailSummary) (now : Text)
    (entry : SnoozedMessage)
    → In entry (values snoozes)
    → text_ltb now entry.until ≡ true
    → In (row_of messages entry) (snoozed_rows loc snoozes messages now)
unfolding snoozed_rows list_snoozed
snoozed_rows-In loc snoozes messages now entry m later = map-In (row_of messages) entry _ (
    filter-In (λ x. text_ltb now x.until) entry _
      (sort_by-In (until_le loc) entry (values snoozes) m) later)

-- A message is hidden from the inbox exactly when the Snoozed folder has a row for it, where every
-- entry stands under its own id, once.
pub is_snoozed_iff :
    (loc : Locale) (snoozes : SnoozeMap) (messages : List MailSummary) (id now : Text)
    → IsSnoozeMap snoozes
    → (is_snoozed snoozes id now ≡ true)
      ↔ ((row : SnoozedRow) × In row (snoozed_rows loc snoozes messages now) × (row.entry.id ≡ id))
unfolding is_snoozed
is_snoozed_iff loc snoozes messages id now v = (
  (λ h. elim (Option-cases (lookup id snoozes)) [
    | inl absent ↦ absurd (cc (rw absent at h))
    | inr (entry, found) ↦ (
      row_of messages entry,
      snoozed_rows-In loc snoozes messages now entry (lookup-values id entry snoozes found)
          (rw found at h),
      All-In (λ (p : Text × SnoozedMessage). p.1.id ≡ p.0) snoozes v.keyed (id, entry)
          (lookup-In id entry snoozes found),
    )
  ]),
  (λ h.
      let (stored, later) = In-snoozed_rows loc snoozes messages now h.0 h.1 in
      let found = entry-lookup snoozes h.0.entry v stored in rw (← h.2) (rw found later)),
)

-- An entry is due exactly when it is stored and the folder has no row for it: at every time each stored
-- entry is either due or listed, and never both.
pub due_snoozed_iff :
    (loc : Locale) (snoozes : SnoozeMap) (messages : List MailSummary) (now : Text)
    (entry : SnoozedMessage)
    → In entry (due_snoozed loc snoozes now) ↔ (
        In entry (values snoozes)
        × ((row : SnoozedRow) → In row (snoozed_rows loc snoozes messages now) → row.entry ≢ entry))
unfolding due_snoozed list_snoozed
due_snoozed_iff loc snoozes messages now entry = (
  (λ h.
      let (sorted, due) = In-filter (λ x. text_leb x.until now) entry _ h in
      (
        In-sort_by (until_le loc) entry (values snoozes) sorted,
        λ row listed e. cc (
          due,
          (In-snoozed_rows loc snoozes messages now row listed).1,
          ap (λ (x : SnoozedMessage). text_leb x.until now) e,
        ),
      )),
  (λ h. elim (Bool-cases (text_leb entry.until now)) [
    | inl due ↦
        filter-In (λ x. text_leb x.until now) entry _
          (sort_by-In (until_le loc) entry (values snoozes) h.0) due
    | inr later ↦ absurd (
        h.1 (row_of messages entry) (snoozed_rows-In loc snoozes messages now entry h.0 (rw later))
          refl)
  ]),
)
