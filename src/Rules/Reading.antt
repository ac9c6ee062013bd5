-- ===== src/Rules/Reading.antt =====
-- Rules never read the subject or the snippet that a server shows for an encrypted message.
use crypt_mail.Prelude.{
  ◌≡◌, refl, ap, ◌∙◌, inl, inr, Bool, true, List, [], ◌∷◌, map, if◌then◌else◌, Bool-cases, all,
  Text, Locale,
}
use crypt_mail.Prelude.Filed.{Filed, filed_under, unique}
use crypt_mail.Mail.{MailSummary}
use crypt_mail.Search.{SearchIndex}
use crypt_mail.Rules.{
  with_outcome, RuleField, RuleCondition, Rule, RulesState, RuleInput, is_nil, readable_field,
  condition_holds, match_rule, Gathered, nothing_yet, active_rules, fire, skips, run_rules,
  gathered, fired_after, apply_from, apply_rules, from, subject, content,
}

-- The message with another subject and snippet.
abbrev resubjected : Text → Text → RuleInput → RuleInput
resubjected t u input = record input { summary = record input.summary { subject = t; snippet = u } }

-- Encrypted messages with another subject and snippet, all others as they are.
abbrev pub disguised : (RuleInput → Text) → (RuleInput → Text) → RuleInput → RuleInput
disguised subject_of snippet_of input =
    if input.encrypted then resubjected (subject_of input) (snippet_of input) input else input

module _ (loc : Locale) (index : SearchIndex) (t u : Text) (input : RuleInput)
    (sealed : input.encrypted ≡ true) where
  readable_field-resubjected :
      (field : RuleField)
      → readable_field field (resubjected t u input) index ≡ readable_field field input index
  unfolding readable_field
  readable_field-resubjected from = refl
  readable_field-resubjected subject = simp sealed
  readable_field-resubjected content = simp sealed

  condition_holds-resubjected :
      (c : RuleCondition)
      → condition_holds loc (resubjected t u input) index c ≡ condition_holds loc input index c
  unfolding condition_holds
  condition_holds-resubjected c = simp (readable_field-resubjected c.field)

  match_rule-resubjected :
      (conditions : List RuleCondition)
      → match_rule loc conditions (resubjected t u input) index
        ≡ match_rule loc conditions input index
  unfolding match_rule
  match_rule-resubjected [] = refl
  match_rule-resubjected (c ∷ conditions) =
      ap (λ p. all p (c ∷ conditions)) (λ i d. condition_holds-resubjected d i)

  module _ (label_ids : List Text) (can_archive : MailSummary → Bool)
      (blind : can_archive (resubjected t u input).summary ≡ can_archive input.summary) where
    run_rules-resubjected :
        (already : List Text) (rules : List Rule) (acc : Gathered)
        → run_rules loc index label_ids can_archive already (resubjected t u input) rules acc
          ≡ run_rules loc index label_ids can_archive already input rules acc
    unfolding run_rules fire
    run_rules-resubjected already [] acc = refl
    run_rules-resubjected already (rule ∷ rules) acc =
        simp (match_rule-resubjected rule.conditions, blind)
          (run_rules-resubjected already rules (
            if skips loc index label_ids can_archive already input rule
            then acc
            else fire loc index label_ids can_archive rule input.summary acc))

module _ (loc : Locale) (index : SearchIndex) (label_ids : List Text)
    (can_archive : MailSummary → Bool)
    (blind : (t u : Text) (input : RuleInput)
      → can_archive (resubjected t u input).summary ≡ can_archive input.summary) where
  gathered-disguised :
      (subject_of snippet_of : RuleInput → Text) (active : List Rule) (input : RuleInput)
      (fired : Filed)
      → gathered loc index label_ids can_archive active
          (disguised subject_of snippet_of input)
          fired
        ≡ gathered loc index label_ids can_archive active input fired
  unfolding gathered
  gathered-disguised subject_of snippet_of active input fired = elim (Bool-cases input.encrypted) [
    | inl e ↦
        ap (λ i. gathered loc index label_ids can_archive active i fired)
          (ap (λ b. if b then resubjected (subject_of input) (snippet_of input) input else input) e)
        ∙ (run_rules-resubjected loc index (subject_of input) (snippet_of input) input e label_ids
            can_archive (blind (subject_of input) (snippet_of input) input)
            (unique (filed_under input.summary.id fired)) active nothing_yet)
    | inr n ↦
        ap (λ i. gathered loc index label_ids can_archive active i fired)
          (ap (λ b. if b then resubjected (subject_of input) (snippet_of input) input else input) n)
  ]

  id-disguised :
      (subject_of snippet_of : RuleInput → Text) (input : RuleInput)
      → (disguised subject_of snippet_of input).summary.id ≡ input.summary.id
  id-disguised subject_of snippet_of input = elim (Bool-cases input.encrypted) [
    | inl e ↦ simp e
    | inr n ↦ simp n
  ]

  apply_from-disguised :
      (subject_of snippet_of : RuleInput → Text) (active : List Rule) (inputs : List RuleInput)
      (fired : Filed)
      → apply_from loc index label_ids can_archive active
          (map (disguised subject_of snippet_of) inputs)
          fired
        ≡ apply_from loc index label_ids can_archive active inputs fired
  unfolding apply_from fired_after
  apply_from-disguised subject_of snippet_of active [] fired = refl
  apply_from-disguised subject_of snippet_of active (input ∷ inputs) fired =
      simp
        (
          gathered-disguised subject_of snippet_of active input fired,
          id-disguised subject_of snippet_of input,
        )
        (ap
          (λ rest.
            with_outcome loc index label_ids can_archive input
              (gathered loc index label_ids can_archive active input fired) rest)
          (apply_from-disguised subject_of snippet_of active inputs
            (fired_after loc index label_ids can_archive active input fired)))

-- A run of the rules, its outcomes and what it records as fired, stays the same whatever subject and
-- snippet each encrypted message of the list shows, if the caller's archive test does not read them.
pub apply_rules-disguised :
    (loc : Locale) (index : SearchIndex) (label_ids : List Text) (can_archive : MailSummary → Bool)
    (subject_of snippet_of : RuleInput → Text) (inputs : List RuleInput) (state : RulesState)
    → ((t u : Text) (input : RuleInput)
        → can_archive (resubjected t u input).summary ≡ can_archive input.summary)
    → apply_rules loc index label_ids can_archive
        (map (disguised subject_of snippet_of) inputs)
        state
      ≡ apply_rules loc index label_ids can_archive inputs state
unfolding apply_rules
apply_rules-disguised loc index label_ids can_archive subject_of snippet_of inputs state blind =
    elim (Bool-cases (is_nil (active_rules state))) [
      | inl e ↦ simp e
      | inr n ↦ simp n (
          apply_from-disguised loc index label_ids can_archive blind subject_of snippet_of
            (active_rules state) inputs state.fired)
    ]
