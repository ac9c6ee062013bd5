-- ===== src/Rules/Once.antt =====
-- A rule fires once on a message: what a second run over the same messages finds.
use crypt_mail.Prelude.{
  ◌≡◌, refl, sym, ap, ◌∙◌, subst, inl, inr, Bool, true, false, ◌&&◌, ◌||◌, List, [], ◌∷◌, ◌++◌,
  arith, if◌then◌else◌, Bool-cases, In, Text, text_eq, text_eq_iff, text_eq_refl, has_text,
  has_text-append, insert, lookup-insert, Locale,
}
use crypt_mail.Prelude.Filed.{Filed, ids_or_none, filed_under, unique, has_text-unique}
use crypt_mail.Mail.{MailSummary}
use crypt_mail.Search.{SearchIndex}
use crypt_mail.Rules.{
  nothing_yet, Rule, RulesState, RuleInput, is_nil, Gathered, fire, skips, run_rules, gathered,
  fired_after, apply_from, active_rules, apply_rules,
}

-- What `fired` holds after the ids of a run are put behind those of its message.
has_text-filed_ran :
    (r m k : Text) (ran : List Text) (fired : Filed)
    → has_text r (
        filed_under m
          (if is_nil ran then fired else insert k (unique (filed_under k fired) ++ ran) fired))
      ≡ (has_text r (filed_under m fired) || (text_eq k m && has_text r ran))
unfolding has_text
has_text-filed_ran r m k [] fired = ground arith
has_text-filed_ran r m k (x ∷ ran) fired =
    ap (λ ids. has_text r (ids_or_none ids))
      (lookup-insert k m (unique (filed_under k fired) ++ x ∷ ran) fired)
    ∙ elim (Bool-cases (text_eq k m)) [
      | inl e ↦ simp e (
          has_text-append r (unique (filed_under k fired)) (x ∷ ran)
          ∙ ap (λ b. b || has_text r (x ∷ ran))
              (has_text-unique r (filed_under k fired)
                ∙ ap (λ i. has_text r (filed_under i fired)) ((text_eq_iff k m).0 e)))
      | inr n ↦ simp n (ground arith)
    ]

module _ (loc : Locale) (index : SearchIndex) (label_ids : List Text)
    (can_archive : MailSummary → Bool) where
  -- No rule of the list is left to fire on the message.
  abbrev IsSettled : List Rule → Filed → RuleInput → Type 0
  IsSettled rules fired input =
      (rule : Rule)
      → In rule rules
      → skips loc index label_ids can_archive (unique (filed_under input.summary.id fired)) input
          rule
        ≡ true

  run_rules-settled :
      (already : List Text) (input : RuleInput) (rules : List Rule) (acc : Gathered)
      → ((rule : Rule)
          → In rule rules
          → skips loc index label_ids can_archive already input rule ≡ true)
      → run_rules loc index label_ids can_archive already input rules acc ≡ acc
  unfolding run_rules
  run_rules-settled already input [] acc h = refl
  run_rules-settled already input (rule ∷ rules) acc h =
      simp (h rule (inl refl)) (run_rules-settled already input rules acc (λ r i. h r (inr i)))

  has_text-ran :
      (id : Text) (already : List Text) (input : RuleInput) (rules : List Rule) (acc : Gathered)
      → has_text id acc.ran ≡ true
      → has_text id (run_rules loc index label_ids can_archive already input rules acc).ran ≡ true
  unfolding run_rules fire
  has_text-ran id already input [] acc h = h
  has_text-ran id already input (rule ∷ rules) acc h =
      elim (Bool-cases (skips loc index label_ids can_archive already input rule)) [
        | inl e ↦ simp e (has_text-ran id already input rules acc h)
        | inr n ↦ simp n (
            has_text-ran id already input rules
              (fire loc index label_ids can_archive rule input.summary acc)
              (has_text-append id acc.ran (rule.id ∷ []) ∙ simp h))
      ]

  run_rules-fires :
      (rule : Rule) (already : List Text) (input : RuleInput) (rules : List Rule) (acc : Gathered)
      → In rule rules
      → skips loc index label_ids can_archive already input rule ≡ false
      → has_text rule.id (run_rules loc index label_ids can_archive already input rules acc).ran
        ≡ true
  unfolding run_rules fire has_text
  run_rules-fires rule already input [] acc h n = absurd h
  run_rules-fires rule already input (r ∷ rules) acc (inl e) n =
      simp (sym e, n)
        (has_text-ran rule.id already input rules
          (fire loc index label_ids can_archive rule input.summary acc)
          (has_text-append rule.id acc.ran (rule.id ∷ []) ∙ ground (arith, text_eq_refl rule.id)))
  run_rules-fires rule already input (r ∷ rules) acc (inr h) n =
      run_rules-fires rule already input rules
        (if skips loc index label_ids can_archive already input r
          then acc
          else fire loc index label_ids can_archive r input.summary acc)
        h n

  has_text-fired_after :
      (r m : Text) (active : List Rule) (input : RuleInput) (fired : Filed)
      → has_text r (filed_under m (fired_after loc index label_ids can_archive active input fired))
        ≡ (has_text r (filed_under m fired)
            || (text_eq input.summary.id m
                && has_text r (gathered loc index label_ids can_archive active input fired).ran))
  unfolding fired_after has_text
  has_text-fired_after r m active input fired =
      has_text-filed_ran r m input.summary.id
        (gathered loc index label_ids can_archive active input fired).ran fired

  fired_after-IsSettled :
      (active : List Rule) (input : RuleInput) (fired : Filed)
      → IsSettled active (fired_after loc index label_ids can_archive active input fired) input
  unfolding gathered
  fired_after-IsSettled active input fired rule i = ground (
    arith,
    has_text-unique rule.id (
        filed_under input.summary.id
          (fired_after loc index label_ids can_archive active input fired)),
    has_text-unique rule.id (filed_under input.summary.id fired),
    has_text-fired_after rule.id input.summary.id active input fired,
    text_eq_refl input.summary.id,
    run_rules-fires rule (unique (filed_under input.summary.id fired)) input active nothing_yet i,
  )

  fired_after-keeps :
      (active : List Rule) (input other : RuleInput) (fired : Filed)
      → IsSettled active fired input
      → IsSettled active (fired_after loc index label_ids can_archive active other fired) input
  fired_after-keeps active input other fired h rule i = ground (
    arith,
    has_text-unique rule.id (
        filed_under input.summary.id
          (fired_after loc index label_ids can_archive active other fired)),
    has_text-unique rule.id (filed_under input.summary.id fired),
    has_text-fired_after rule.id input.summary.id active other fired,
    h rule i,
  )

  apply_from-fired :
      (active : List Rule) (input : RuleInput) (inputs : List RuleInput) (fired : Filed)
      → (apply_from loc index label_ids can_archive active (input ∷ inputs) fired).fired
        ≡ (apply_from loc index label_ids can_archive active inputs
            (fired_after loc index label_ids can_archive active input fired)).fired
  unfolding apply_from
  apply_from-fired active input inputs fired =
      elim (Bool-cases (is_nil (gathered loc index label_ids can_archive active input fired).ran)) [
        | inl e ↦ simp e
        | inr n ↦ simp n
      ]

  apply_from-keeps :
      (active : List Rule) (input : RuleInput) (inputs : List RuleInput) (fired : Filed)
      → IsSettled active fired input
      → IsSettled active
          (apply_from loc index label_ids can_archive active inputs fired).fired
          input
  unfolding apply_from
  apply_from-keeps active input [] fired h = h
  apply_from-keeps active input (other ∷ inputs) fired h =
      subst (λ f. IsSettled active f input) (sym (apply_from-fired active other inputs fired))
        (apply_from-keeps active input inputs
          (fired_after loc index label_ids can_archive active other fired)
          (fired_after-keeps active input other fired h))

  apply_from-settles :
      (active : List Rule) (input : RuleInput) (inputs : List RuleInput) (fired : Filed)
      → In input inputs
      → IsSettled active
          (apply_from loc index label_ids can_archive active inputs fired).fired
          input
  apply_from-settles active input [] fired h = absurd h
  apply_from-settles active input (other ∷ inputs) fired (inl e) =
      subst (λ f. IsSettled active f input) (sym (apply_from-fired active other inputs fired))
        (apply_from-keeps active input inputs
          (fired_after loc index label_ids can_archive active other fired)
          (subst
            (λ o.
              IsSettled active (fired_after loc index label_ids can_archive active o fired) input)
            e (fired_after-IsSettled active input fired)))
  apply_from-settles active input (other ∷ inputs) fired (inr h) =
      subst (λ f. IsSettled active f input) (sym (apply_from-fired active other inputs fired))
        (apply_from-settles active input inputs
          (fired_after loc index label_ids can_archive active other fired) h)

  apply_from-nothing :
      (active : List Rule) (inputs : List RuleInput) (fired : Filed)
      → ((input : RuleInput) → In input inputs → IsSettled active fired input)
      → apply_from loc index label_ids can_archive active inputs fired
        ≡ record { outcomes = []; fired = fired }
  unfolding apply_from fired_after gathered
  apply_from-nothing active [] fired h = refl
  apply_from-nothing active (input ∷ inputs) fired h =
      simp
        (run_rules-settled (unique (filed_under input.summary.id fired)) input active nothing_yet
          (h input (inl refl)))
        (apply_from-nothing active inputs fired (λ i m. h i (inr m)))

  -- A second run of the rules over the same messages, with what the first run recorded as fired, has no
  -- outcome and records nothing more, whatever the rules are and however often a message is listed.
  pub apply_rules-again :
      (inputs : List RuleInput) (state : RulesState)
      → (let fired = (apply_rules loc index label_ids can_archive inputs state).fired in
          apply_rules loc index label_ids can_archive inputs (record state { fired = fired })
          ≡ record { outcomes = []; fired = fired })
  unfolding apply_rules active_rules
  apply_rules-again inputs state = elim (Bool-cases (is_nil (active_rules state))) [
    | inl e ↦ simp e
    | inr n ↦ simp n (
        apply_from-nothing (active_rules state) inputs
          (apply_from loc index label_ids can_archive (active_rules state) inputs state.fired).fired
          (λ i m. apply_from-settles (active_rules state) i inputs state.fired m))
  ]
