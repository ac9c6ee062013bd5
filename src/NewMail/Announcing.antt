-- ===== src/NewMail/Announcing.antt =====
-- No message of a sync is announced twice.
use crypt_mail.Prelude.{
  ℕ, ◌≤◌, ◌≡◌, refl, ◌∙◌, inl, inr, Bool, true, false, ◌&&◌, not, Option, none, some, List, [], ◌∷◌,
  ◌++◌, arith, ltb, ltb→lt, Bool-cases, length, filter_eq_nil, In, All-of, map-In, Text, has_text,
  has_text-filter, has_text-append, has_text_iff, Locale,
}
use crypt_mail.Prelude.Filed.{unique, has_text-unique}
use crypt_mail.Mail.{MailSummary}
use crypt_mail.NewMail.{
  NotifyLedger, ObserveOptions, seen_cap, row_ids, cap_seen, is_notifiable, newly_seen,
  observe_since, observe,
}

-- The ids that a sync asks the ledger to remember.
abbrev pub looked_at :
    Locale → (Text → Option ℕ) → (Text → Bool) → NotifyLedger → List MailSummary → List Text
looked_at loc parse_date sealed_subject ledger rows =
    ledger.seen ++ newly_seen loc parse_date sealed_subject ledger rows

has_text-cap_seen :
    (id : Text) (ids : List Text)
    → length (unique ids) ≤ seen_cap
    → has_text id (cap_seen ids) ≡ has_text id ids
unfolding cap_seen
has_text-cap_seen id ids fits = elim (Bool-cases (ltb seen_cap (length (unique ids)))) [
  | inl e ↦ absurd (omega (arith, fits, ltb→lt seen_cap (length (unique ids)) e))
  | inr n ↦ rw n (has_text-unique id ids)
]

module _ (loc : Locale) (parse_date : Text → Option ℕ) (sealed_subject : Text → Bool) where
  -- Every row of the sync is remembered.
  looked_at-rows :
      (ledger : NotifyLedger) (rows : List MailSummary) (row : MailSummary)
      → In row rows
      → has_text row.id (looked_at loc parse_date sealed_subject ledger rows) ≡ true
  looked_at-rows ledger rows row i =
      has_text-append row.id ledger.seen (newly_seen loc parse_date sealed_subject ledger rows)
      ∙ elim (Bool-cases (has_text row.id ledger.seen)) [
        | inl e ↦ rw e refl
        | inr n ↦ rw n (
            has_text-filter (λ id. not (has_text id ledger.seen)) row.id (row_ids rows)
            ∙ rw n (
                ground (
                  arith,
                  (has_text_iff row.id (row_ids rows)).1
                      (map-In (λ (r : MailSummary). r.id) row rows i),
                )))
      ]

  -- A ledger that has seen every row announces none of them.
  fresh-none :
      (since : Option Text) (ledger : NotifyLedger) (rows : List MailSummary)
      (options : ObserveOptions)
      → ((row : MailSummary) → In row rows → has_text row.id ledger.seen ≡ true)
      → (observe_since loc parse_date sealed_subject since ledger rows options).fresh ≡ []
  fresh-none none ledger rows options h = refl
  fresh-none (some []) ledger rows options h = refl
  fresh-none (some (c ∷ since)) ledger rows options h =
      filter_eq_nil
        (λ (row : MailSummary).
          not (has_text row.id ledger.seen)
          && is_notifiable loc parse_date sealed_subject (c ∷ since) options row)
        rows
        (All-of
          (λ (row : MailSummary).
            (not (has_text row.id ledger.seen)
              && is_notifiable loc parse_date sealed_subject (c ∷ since) options row)
            ≡ false)
          rows (λ row i. rw (h row i) refl))

  observed-rows :
      (since : Option Text) (ledger : NotifyLedger) (rows : List MailSummary)
      (options : ObserveOptions)
      → length (unique (looked_at loc parse_date sealed_subject ledger rows)) ≤ seen_cap
      → length (unique (row_ids rows)) ≤ seen_cap
      → (row : MailSummary) → In row rows
      → has_text row.id
          (observe_since loc parse_date sealed_subject since ledger rows options).ledger.seen
        ≡ true
  observed-rows none ledger rows options fits short row i =
      has_text-cap_seen row.id (row_ids rows) short
      ∙ (has_text_iff row.id (row_ids rows)).1 (map-In (λ (r : MailSummary). r.id) row rows i)
  observed-rows (some []) ledger rows options fits short row i =
      has_text-cap_seen row.id (row_ids rows) short
      ∙ (has_text_iff row.id (row_ids rows)).1 (map-In (λ (r : MailSummary). r.id) row rows i)
  observed-rows (some (c ∷ since)) ledger rows options fits short row i =
      has_text-cap_seen row.id (looked_at loc parse_date sealed_subject ledger rows) fits
      ∙ looked_at-rows ledger rows row i

-- A message is announced at most once: after a sync was observed, whether it primed the ledger or announced
-- mail, observing the same rows again, whatever the options then are, announces nothing. This holds where
-- the ids that the ledger had seen and those of the rows are together no more than its cap of 500.
pub observe-again :
    (loc : Locale) (parse_date : Text → Option ℕ) (sealed_subject : Text → Bool)
    (ledger : NotifyLedger) (rows : List MailSummary) (options later : ObserveOptions)
    → length (unique (looked_at loc parse_date sealed_subject ledger rows)) ≤ seen_cap
    → length (unique (row_ids rows)) ≤ seen_cap
    → (observe loc parse_date sealed_subject
        (observe loc parse_date sealed_subject ledger rows options).ledger
        rows
        later).fresh
      ≡ []
unfolding observe
observe-again loc parse_date sealed_subject ledger rows options later fits short =
    let next =
      (observe_since loc parse_date sealed_subject ledger.since ledger rows options).ledger in
    fresh-none loc parse_date sealed_subject next.since next rows later
      (observed-rows loc parse_date sealed_subject ledger.since ledger rows options fits short)
