-- ===== src/Rules/Tests.antt =====
-- Rules at concrete inputs.
use crypt_mail.Prelude.{
  ◌≡◌, refl, Bool, true, false, none, List, [], ◌∷◌, map, codes, trim, includes, canonical,
}
use crypt_mail.Mail.{MailSummary}
use crypt_mail.Rules.{
  Rule, RulesState, RuleInput, readable_field, condition_holds, match_rule, apply_rules, from,
}
use crypt_mail.Rules.Once.{apply_rules-again}
use crypt_mail.Rules.Reading.{apply_rules-disguised, disguised}
use crypt_mail.Samples.{ascii, mail, t1}

abbrev starring : Rule
starring = record {
  id = codes "r";
  name = codes "ann";
  enabled = true;
  conditions = record { field = from; contains = codes "ANN" } ∷ [];
  actions = record { star = true; mark_read = false; archive = false; label_id = none };
  created_at = t1;
}

abbrev state : RulesState
state = record { rules = starring ∷ []; fired = [] }

abbrev inputs : List RuleInput
inputs =
    record { summary = mail (codes "a") (codes "one"); encrypted = true }
    ∷ record { summary = mail (codes "b") (codes "two"); encrypted = false }
    ∷ []

abbrev always : MailSummary → Bool
always summary = true

match_rule_test : map (λ i. match_rule ascii starring.conditions i []) inputs ≡ true ∷ true ∷ []
unfolding match_rule condition_holds canonical trim readable_field includes
match_rule_test = refl

apply_rules-again_example :
    apply_rules ascii [] [] always inputs
      (record state { fired = (apply_rules ascii [] [] always inputs state).fired })
    ≡ record { outcomes = []; fired = (apply_rules ascii [] [] always inputs state).fired }
apply_rules-again_example = apply_rules-again ascii [] [] always inputs state

apply_rules-disguised_example :
    apply_rules ascii [] [] always
      (map (disguised (λ i. codes "x") (λ i. codes "ann")) inputs)
      state
    ≡ apply_rules ascii [] [] always inputs state
apply_rules-disguised_example =
    apply_rules-disguised ascii [] [] always (λ i. codes "x") (λ i. codes "ann") inputs state
      (λ t u i. refl)
