-- ===== src/Rules.antt =====
-- Client-side rules (app/src/rules/rules.ts): what a condition may read, when a rule fires, and the
-- record of what fired. `can_archive` is the caller's test, always true where none is given.
pub mod Reading
pub mod Once
mod Tests
use crypt_mail.Prelude.{
  ℕ, Bool, true, false, ◌&&◌, ◌||◌, not, Option, none, some, List, [], ◌∷◌, ◌++◌, map, leb,
  if◌then◌else◌, length, filter, any, all, Text, text_eq, trim, includes, is_empty, has_text,
  lookup, insert, keys, Locale, canonical,
}
use crypt_mail.Prelude.Filed.{Filed, filed_under, refile, unique}
use crypt_mail.Mail.{MailSummary, FlagPatch, no_change}
use crypt_mail.Search.{SearchIndex, IndexEntry, text_or_empty}

pub data RuleField : Type 0 where
  from subject content : RuleField

pub record RuleCondition : Type 0 where
  pub field : RuleField
  pub contains : Text

pub record RuleActions : Type 0 where
  pub star : Bool
  pub mark_read : Bool
  pub archive : Bool
  pub label_id : Option Text

pub record Rule : Type 0 where
  pub id : Text
  pub name : Text
  pub enabled : Bool
  pub conditions : List RuleCondition
  pub actions : RuleActions
  pub created_at : Text

pub record RulesState : Type 0 where
  pub rules : List Rule
  pub fired : Filed

pub record RuleInput : Type 0 where
  pub summary : MailSummary
  pub encrypted : Bool

pub data RuleProblem : Type 0 where
  no_condition empty_condition no_action : RuleProblem

-- A truthy label id.
abbrev pub files_under : Option Text → Bool
files_under none = false
files_under (some []) = false
files_under (some (c ∷ id)) = true

unfoldable pub has_any_action : RuleActions → Bool
has_any_action actions =
    actions.star || (actions.mark_read || (actions.archive || files_under actions.label_id))

abbrev pub is_nil {ℓ} : {A : Type ℓ} → List A → Bool
is_nil [] = true
is_nil (x ∷ xs) = false

unfoldable pub rule_problem : Rule → Option RuleProblem
rule_problem rule =
    if is_nil rule.conditions
    then some no_condition
    else if any (λ (c : RuleCondition). is_empty (trim c.contains)) rule.conditions
    then some empty_condition
    else if has_any_action rule.actions
    then none
    else some no_action

abbrev spaced : Text → Text → Text
spaced a b = a ++ (32 ∷ b)

abbrev sealed_field : RuleField → Option IndexEntry → Option Text
sealed_field field none = none
sealed_field subject (some entry) = some entry.subject
sealed_field _ (some entry) = some (spaced entry.subject entry.body)

abbrev open_field : RuleField → MailSummary → Text
open_field subject summary = summary.subject
open_field _ summary = spaced summary.subject summary.snippet

-- The text that a condition may read; `none` where this device cannot read that part.
unfoldable pub readable_field : RuleField → RuleInput → SearchIndex → Option Text
readable_field from input index =
    some (spaced (text_or_empty input.summary.from.name) input.summary.from.address)
readable_field field input index =
    if input.encrypted
    then sealed_field field (lookup input.summary.id index)
    else some (open_field field input.summary)

abbrev contains_needle : Locale → Option Text → Text → Bool
contains_needle loc none needle = false
contains_needle loc (some t) needle = includes (loc.lower t) needle

unfoldable pub condition_holds : Locale → RuleInput → SearchIndex → RuleCondition → Bool
condition_holds loc input index condition =
    let needle = canonical loc condition.contains in
    if is_empty needle
    then false
    else contains_needle loc (readable_field condition.field input index) needle

unfoldable pub match_rule : Locale → List RuleCondition → RuleInput → SearchIndex → Bool
match_rule loc conditions input index =
    if is_nil conditions then false else all (condition_holds loc input index) conditions

pub record RuleOutcome : Type 0 where
  pub id : Text
  pub flags : FlagPatch
  pub add_labels : List Text
  pub rules : List Text

-- What the loop over the rules has gathered for one message.
pub record Gathered : Type 0 where
  pub flags : FlagPatch
  pub add_labels : List Text
  pub ran : List Text

pub record RuleRun : Type 0 where
  pub outcomes : List RuleOutcome
  pub fired : Filed

abbrev pub nothing_yet : Gathered
nothing_yet = record { flags = no_change; add_labels = []; ran = [] }

abbrev with_label : List Text → Option Text → List Text → List Text
with_label label_ids none add_labels = add_labels
with_label label_ids (some id) add_labels =
    if files_under (some id) && (has_text id label_ids && not (has_text id add_labels))
    then add_labels ++ id ∷ []
    else add_labels

abbrev is_none {ℓ} : {A : Type ℓ} → Option A → Bool
is_none none = true
is_none (some a) = false

unfoldable pub active_rules : RulesState → List Rule
active_rules state =
    filter (λ (rule : Rule). rule.enabled && is_none (rule_problem rule)) state.rules

module _ (loc : Locale) (index : SearchIndex) (label_ids : List Text)
    (can_archive : MailSummary → Bool) where
  abbrev flags_after : RuleActions → MailSummary → FlagPatch → FlagPatch
  flags_after actions summary flags = record flags {
    starred = if actions.star && not summary.starred then some true else flags.starred;
    unread = if actions.mark_read && summary.unread then some false else flags.unread;
    archived = if actions.archive && can_archive summary then some true else flags.archived;
  }

  -- A rule that matched.
  unfoldable pub fire : Rule → MailSummary → Gathered → Gathered
  fire rule summary acc = record {
    flags = flags_after rule.actions summary acc.flags;
    add_labels = with_label label_ids rule.actions.label_id acc.add_labels;
    ran = acc.ran ++ rule.id ∷ [];
  }

  abbrev pub skips : List Text → RuleInput → Rule → Bool
  skips already input rule =
      has_text rule.id already || not (match_rule loc rule.conditions input index)

  unfoldable pub run_rules : List Text → RuleInput → List Rule → Gathered → Gathered
  run_rules already input [] acc = acc
  run_rules already input (rule ∷ rules) acc =
      run_rules already input rules
        (if skips already input rule then acc else fire rule input.summary acc)

  unfoldable pub gathered : List Rule → RuleInput → Filed → Gathered
  gathered active input fired =
      run_rules (unique (filed_under input.summary.id fired)) input active nothing_yet

  -- fired[summary.id] = [...already, ...ran]
  unfoldable pub fired_after : List Rule → RuleInput → Filed → Filed
  fired_after active input fired =
      let ran = (gathered active input fired).ran in
      if is_nil ran
      then fired
      else insert input.summary.id (unique (filed_under input.summary.id fired) ++ ran) fired

  abbrev pub with_outcome : RuleInput → Gathered → RuleRun → RuleRun
  with_outcome input acc rest = if is_nil acc.ran then rest else record rest {
    outcomes =
        record {
          id = input.summary.id;
          flags = acc.flags;
          add_labels = acc.add_labels;
          rules = acc.ran;
        }
        ∷ rest.outcomes;
  }

  -- The loop over the messages.
  unfoldable pub apply_from : List Rule → List RuleInput → Filed → RuleRun
  apply_from active [] fired = record { outcomes = []; fired = fired }
  apply_from active (input ∷ inputs) fired =
      with_outcome input (gathered active input fired)
        (apply_from active inputs (fired_after active input fired))

  unfoldable pub apply_rules : List RuleInput → RulesState → RuleRun
  apply_rules inputs state =
      let active = active_rules state in
      if is_nil active
      then record { outcomes = []; fired = state.fired }
      else apply_from active inputs state.fired

abbrev pub fired_cap : ℕ
fired_cap = 4000

unfoldable pub keep_entries : List Text → Filed → Filed
keep_entries keep [] = []
keep_entries keep ((id, ids) ∷ fired) =
    let rest = keep_entries keep fired in if has_text id keep then (id, ids) ∷ rest else rest

unfoldable pub prune_fired : Filed → List Text → ℕ → Filed
prune_fired fired keep cap =
    if leb (length (keys fired)) cap then fired else keep_entries keep fired

unfoldable pub remove_rule : RulesState → Text → RulesState
remove_rule state id = record {
  rules = filter (λ (rule : Rule). not (text_eq rule.id id)) state.rules;
  fired = refile (λ rule_id. not (text_eq rule_id id)) state.fired;
}

-- The first rule of the same id is replaced in place; a new one goes to the end.
unfoldable pub upsert_rules : List Rule → Rule → List Rule
upsert_rules [] rule = rule ∷ []
upsert_rules (r ∷ rules) rule =
    let rest = upsert_rules rules rule in if text_eq r.id rule.id then rule ∷ rules else r ∷ rest

unfoldable pub upsert_rule : RulesState → Rule → RulesState
unfolding upsert_rules
upsert_rule state rule = record state { rules = upsert_rules state.rules rule }

abbrev files_label : Text → Option Text → Bool
files_label label_id none = false
files_label label_id (some id) = text_eq id label_id

unfoldable pub without_label : Text → Rule → Rule
without_label label_id rule =
    if files_label label_id rule.actions.label_id
    then record rule { actions = record rule.actions { label_id = none } }
    else rule

unfoldable pub drop_label_from_rules : RulesState → Text → RulesState
drop_label_from_rules state label_id =
    if any (λ (rule : Rule). files_label label_id rule.actions.label_id) state.rules
    then record state { rules = map (without_label label_id) state.rules }
    else state
