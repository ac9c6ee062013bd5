-- ===== src/CheckResult/Wording.antt =====
-- The answer to a check never takes a failed lookup for an absent key.
use crypt_mail.Prelude.{
  ◌≡◌, refl, ap, ◌≢◌, ◌↔◌, ◌⊎◌, inl, inr, true, false, not, List, [], ◌∷◌, arith, In, In-filter,
  filter-In, Text, Locale,
}
use crypt_mail.CheckResult.{
  CheckResult, no_key, unreachable, no_key_text, unreachable_text, has_failed, unreached,
  without_key, worded, describe_check,
}

-- What the words are made of: the addresses whose lookup failed, and those for which a definite answer
-- came.
abbrev pub IsHonest : Locale → List Text → List Text → CheckResult → Type 0
IsHonest loc pending undiscoverable result =
    (failed : List Text) × (answered : List Text) × ((email : Text)
      → In email failed ↔ (In email pending × (has_failed loc undiscoverable email ≡ true)))
    × ((email : Text)
        → In email answered ↔ (In email pending × (has_failed loc undiscoverable email ≡ false)))
    × ((result ≡ record { kind = no_key; text = no_key_text answered }) × (failed ≡ [])
        ⊎ (result ≡ record { kind = unreachable; text = unreachable_text failed answered })
          × (failed ≢ []))

worded-cases :
    (loc : Locale) (failed answered : List Text)
    → (worded loc failed answered ≡ record { kind = no_key; text = no_key_text answered })
        × (failed ≡ [])
      ⊎ (worded loc failed answered
          ≡ record { kind = unreachable; text = unreachable_text failed answered })
        × (failed ≢ [])
worded-cases loc [] answered = inl (refl, refl)
worded-cases loc (a ∷ failed) answered = inr (refl, λ e. cc e)

-- The answer to a check says that someone has not published a key exactly of those waited for of whom the
-- last lookup settled that, compared as trimmed lower-case addresses; everybody else it reports as not
-- reached. It is of the kind `no-key` only where every lookup of a person waited for was answered.
pub describe_check-IsHonest :
    (loc : Locale) (pending undiscoverable : List Text)
    → IsHonest loc pending undiscoverable (describe_check loc pending undiscoverable)
unfolding describe_check
describe_check-IsHonest loc pending undiscoverable = (
  unreached loc pending undiscoverable,
  without_key loc pending undiscoverable,
  (λ email. (
    In-filter (has_failed loc undiscoverable) email pending,
    λ h. filter-In (has_failed loc undiscoverable) email pending h.0 h.1,
  )),
  (λ email. (
    (λ h.
        let (i, n) = In-filter (λ e. not (has_failed loc undiscoverable e)) email pending h in
        (i, ground (arith, n))),
    λ h. filter-In (λ e. not (has_failed loc undiscoverable e)) email pending h.0 (ap not h.1),
  )),
  worded-cases loc (unreached loc pending undiscoverable) (without_key loc pending undiscoverable),
)
