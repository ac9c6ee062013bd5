-- ===== src/Flags/Patch.antt =====
-- What a flag change does to the list, and to the row's filing.
use crypt_mail.Prelude.{
  ◌≡◌, refl, ap, ◌∙◌, ◌≢◌, ◌↔◌, ◌⊎◌, inl, inr, Bool, true, false, not, Option, none, some, List, [],
  ◌∷◌, ◌++◌, if◌then◌else◌, Bool-cases, filter, In, Text, codes, text_eq, has_text, Locale,
}
use crypt_mail.Mail.{MailSummary, FlagPatch}
use crypt_mail.Flags.{or_nil, files, refiled}

-- The names of the three folders are upper case already.
abbrev pub FilingIsUpper : Locale → Type 0
FilingIsUpper loc =
    (loc.upper (codes "INBOX") ≡ codes "INBOX")
    × (loc.upper (codes "SPAM") ≡ codes "SPAM")
    × (loc.upper (codes "JUNK") ≡ codes "JUNK")

abbrev pub target : Bool → Text
target junk = if junk then codes "SPAM" else codes "INBOX"

files-target : (loc : Locale) (junk : Bool) → FilingIsUpper loc → files loc (target junk) ≡ true
unfolding has_text text_eq
files-target loc true u = rw (u.1)
files-target loc false u = rw (u.0)

filter_idem : (p : Text → Bool) (xs : List Text) → filter p (filter p xs) ≡ filter p xs
filter_idem p [] = refl
filter_idem p (x ∷ xs) = elim (Bool-cases (p x)) [
  | inl e ↦ rw (e) (rw e (ap (λ l. x ∷ l) (filter_idem p xs)))
  | inr n ↦ rw n (filter_idem p xs)
]

filter-append_dropped :
    (p : Text → Bool) (xs : List Text) (x : Text)
    → p x ≡ false
    → filter p (xs ++ x ∷ []) ≡ filter p xs
filter-append_dropped p [] x h = rw h
filter-append_dropped p (y ∷ xs) x h = elim (Bool-cases (p y)) [
  | inl e ↦ rw e (ap (λ l. y ∷ l) (filter-append_dropped p xs x h))
  | inr n ↦ rw n (filter-append_dropped p xs x h)
]

filter_apart :
    (loc : Locale) (xs : List Text) (x : Text)
    → files loc x ≡ true
    → filter (files loc) (filter (λ l. not (files loc l)) xs ++ x ∷ []) ≡ x ∷ []
filter_apart loc [] x h = simp h
filter_apart loc (y ∷ xs) x h = elim (Bool-cases (files loc y)) [
  | inl e ↦ simp e (filter_apart loc xs x h)
  | inr n ↦ simp n (filter_apart loc xs x h)
]

-- The labels after a junk move are those that file nowhere, in their order, and the one target: the
-- message is in junk or in the inbox and never in both, and the last of two moves decides alone.
-- This holds where upper case leaves the three names of the folders as they are.
pub refiled_again :
    (loc : Locale) (labels : Option (List Text)) (first second : Bool)
    → FilingIsUpper loc
    → (filter (files loc) (refiled loc labels second) ≡ target second ∷ [])
      × (refiled loc (some (refiled loc labels first)) second ≡ refiled loc labels second)
unfolding refiled
refiled_again loc labels first second u = (
  only_target (or_nil labels),
  ap (λ (l : List Text). l ++ target second ∷ [])
      (filter-append_dropped (λ l. not (files loc l))
          (filter (λ l. not (files loc l)) (or_nil labels)) (target first)
          (rw (files-target loc first u))
        ∙ filter_idem (λ l. not (files loc l)) (or_nil labels)),
)
  where
    only_target :
        (xs : List Text)
        → filter (files loc) (filter (λ l. not (files loc l)) xs ++ target second ∷ [])
          ≡ target second ∷ []
    only_target xs = filter_apart loc xs (target second) (files-target loc second u)

abbrev pub IsSetTo : Option Bool → Bool → Bool → Type 0
IsSetTo none old new = new ≡ old
IsSetTo (some given) old new = new ≡ given

-- A junk move keeps the labels that file nowhere and adds the folder; nothing else changes labels.
abbrev pub IsRefiled : Locale → Option Bool → Option (List Text) → Option (List Text) → Type 0
IsRefiled loc none old new = new ≡ old
IsRefiled loc (some junk) old new =
    (labels : List Text) × (new ≡ some labels)
    × ((l : Text) → In l labels ↔ ((In l (or_nil old) × (files loc l ≡ false)) ⊎ (l ≡ target junk)))

-- The row has what the patch gives, and is otherwise the old one.
abbrev pub IsPatched : Locale → FlagPatch → MailSummary → MailSummary → Type 0
IsPatched loc patch m row =
    IsSetTo patch.unread m.unread row.unread
    × IsSetTo patch.starred m.starred row.starred
    × IsRefiled loc patch.junk m.labels row.labels
    × (row ≡ record m { unread = row.unread; starred = row.starred; labels = row.labels })

-- Row by row: the rows of other ids as they were, and those of the id patched.
abbrev pub ArePatched : Locale → FlagPatch → Text → List MailSummary → List MailSummary → Type 0
ArePatched loc patch id [] [] = Unit
ArePatched loc patch id (m ∷ ms) [] = ⊥
ArePatched loc patch id [] (row ∷ rows) = ⊥
ArePatched loc patch id (m ∷ ms) (row ∷ rows) =
    ((m.id ≢ id → row ≡ m) × (m.id ≡ id → IsPatched loc patch m row))
    × ArePatched loc patch id ms rows

abbrev pub IsListAfter :
    Option Bool
    → Option Bool
    → Locale
    → FlagPatch
    → Text
    → List MailSummary
    → List MailSummary
    → Type 0
IsListAfter none none loc patch id messages rows = ArePatched loc patch id messages rows
IsListAfter none (some trashed) loc patch id messages rows =
    (m : MailSummary) → In m rows ↔ (In m messages × (m.id ≢ id))
IsListAfter (some archived) trashed loc patch id messages rows =
    (m : MailSummary) → In m rows ↔ (In m messages × (m.id ≢ id))
