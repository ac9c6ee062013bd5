-- ===== src/ImapWire/UidSet.antt =====
-- UID sets (app/src/mail/imapWire.ts, uidSet): the runs of the sorted numbers, and their text.
pub mod Runs
use crypt_mail.Prelude.{
  ℕ, ◌+◌, Bool, false, ◌||◌, not, List, [], ◌∷◌, ◌++◌, map, leb, ◌==◌, if◌then◌else◌, filter, Text,
  codes, join, decimal, sort_by,
}

-- new Set(uids), in the order of the first places
abbrev pub has_uid : ℕ → List ℕ → Bool
has_uid uid [] = false
has_uid uid (u ∷ uids) = u == uid || has_uid uid uids

abbrev pub distinct_uids : List ℕ → List ℕ
distinct_uids [] = []
distinct_uids (u ∷ uids) = u ∷ filter (λ v. not (v == u)) (distinct_uids uids)

pub record UidRun : Type 0 where
  pub first : ℕ
  pub last : ℕ

abbrev pub run_of : ℕ → ℕ → UidRun
run_of first last = record { first = first; last = last }

-- The loop: a run goes on while the next number is one more.
unfoldable pub runs_from : ℕ → ℕ → List ℕ → List UidRun
runs_from first last [] = run_of first last ∷ []
runs_from first last (u ∷ sorted) =
    let longer = runs_from first u sorted in
    let others = runs_from u u sorted in
    if u == last + 1 then longer else run_of first last ∷ others

abbrev pub runs_of : List ℕ → List UidRun
runs_of [] = []
runs_of (u ∷ sorted) = runs_from u u sorted

unfoldable pub uid_runs : List ℕ → List UidRun
uid_runs uids = runs_of (sort_by leb (distinct_uids uids))

abbrev pub run_text : UidRun → Text
run_text run =
    if run.first == run.last
    then decimal run.first
    else decimal run.first ++ codes ":" ++ decimal run.last

unfoldable pub uid_set : List ℕ → Text
uid_set uids = join (codes ",") (map run_text (uid_runs uids))
