-- ===== src/ImapWire/UidSet/Runs.antt =====
-- What a UID set stands for.
use crypt_mail.Prelude.{
  ℕ, ◌+◌, ◌≤◌, ◌<◌, ◌≡◌, refl, ◌∙◌, inl, inr, Bool, false, ◌&&◌, ◌||◌, not, List, [], ◌∷◌, arith,
  leb, ◌==◌, Bool-cases, filter, insert_by, sort_by,
}
use crypt_mail.ImapWire.UidSet.{has_uid, distinct_uids, UidRun, runs_from, runs_of, uid_runs}

-- The numbers that a set stands for, and whether its runs ascend with a gap between any two.
abbrev pub is_covered : ℕ → List UidRun → Bool
is_covered uid [] = false
is_covered uid (run ∷ runs) = (leb run.first uid && leb uid run.last) || is_covered uid runs

abbrev pub AreApart : ℕ → List UidRun → Type 0
AreApart low [] = Unit
AreApart low (run ∷ runs) = (low + 1 < run.first) × (run.first ≤ run.last) × AreApart run.last runs

abbrev pub AreRuns : List UidRun → Type 0
AreRuns [] = Unit
AreRuns (run ∷ runs) = (run.first ≤ run.last) × AreApart run.last runs

is_covered-runs_from :
    (uid first last : ℕ) (sorted : List ℕ)
    → first ≤ last
    → is_covered uid (runs_from first last sorted)
      ≡ ((leb first uid && leb uid last) || has_uid uid sorted)
unfolding runs_from
is_covered-runs_from uid first last [] h = refl
is_covered-runs_from uid first last (u ∷ sorted) h = elim (Bool-cases (u == last + 1)) [
  | inl e ↦ simp e (is_covered-runs_from uid first u sorted (ground arith) ∙ ground arith)
  | inr n ↦ simp n (ground (arith, is_covered-runs_from uid u u sorted (omega arith)))
]

-- Sorting and dropping repeats keep which numbers there are.
has_uid-filter :
    (uid u : ℕ) (uids : List ℕ)
    → has_uid uid (filter (λ v. not (v == u)) uids) ≡ (has_uid uid uids && not (uid == u))
has_uid-filter uid u [] = refl
has_uid-filter uid u (v ∷ uids) = ground (arith, has_uid-filter uid u uids)

has_uid-distinct_uids :
    (uid : ℕ) (uids : List ℕ) → has_uid uid (distinct_uids uids) ≡ has_uid uid uids
has_uid-distinct_uids uid [] = refl
has_uid-distinct_uids uid (u ∷ uids) =
    ground (arith, has_uid-filter uid u (distinct_uids uids), has_uid-distinct_uids uid uids)

has_uid-insert_by :
    (uid u : ℕ) (uids : List ℕ)
    → has_uid uid (insert_by leb u uids) ≡ (u == uid || has_uid uid uids)
unfolding insert_by
has_uid-insert_by uid u [] = refl
has_uid-insert_by uid u (v ∷ uids) = ground (arith, has_uid-insert_by uid u uids)

has_uid-sort_by : (uid : ℕ) (uids : List ℕ) → has_uid uid (sort_by leb uids) ≡ has_uid uid uids
unfolding sort_by
has_uid-sort_by uid [] = refl
has_uid-sort_by uid (u ∷ uids) =
    ground (arith, has_uid-insert_by uid u (sort_by leb uids), has_uid-sort_by uid uids)

-- Distinct numbers ascend when they are sorted.
abbrev IsAbove : ℕ → List ℕ → Type 0
IsAbove low [] = Unit
IsAbove low (u ∷ uids) = (low < u) × IsAbove u uids

abbrev IsAscending : List ℕ → Type 0
IsAscending [] = Unit
IsAscending (u ∷ uids) = IsAbove u uids

abbrev AreDistinct : List ℕ → Type 0
AreDistinct [] = Unit
AreDistinct (u ∷ uids) = (has_uid u uids ≡ false) × AreDistinct uids

insert_by-IsAbove :
    (low u : ℕ) (uids : List ℕ)
    → low < u
    → has_uid u uids ≡ false
    → IsAbove low uids
    → IsAbove low (insert_by leb u uids)
unfolding insert_by
insert_by-IsAbove low u [] h n a = (h, tt)
insert_by-IsAbove low u (v ∷ uids) h n (b, a) = elim (Bool-cases (leb u v)) [
  | inl e ↦ simp e (h, (ground arith, a))
  | inr g ↦ simp g (b, insert_by-IsAbove v u uids (ground arith) (ground arith) a)
]

insert_by-IsAscending :
    (u : ℕ) (uids : List ℕ)
    → has_uid u uids ≡ false
    → IsAscending uids
    → IsAscending (insert_by leb u uids)
unfolding insert_by
insert_by-IsAscending u [] n a = tt
insert_by-IsAscending u (v ∷ uids) n a = elim (Bool-cases (leb u v)) [
  | inl e ↦ simp e (ground arith, a)
  | inr g ↦ simp g (insert_by-IsAbove v u uids (ground arith) (ground arith) a)
]

sort_by-IsAscending : (uids : List ℕ) → AreDistinct uids → IsAscending (sort_by leb uids)
unfolding sort_by
sort_by-IsAscending [] d = tt
sort_by-IsAscending (u ∷ uids) (n, d) =
    insert_by-IsAscending u (sort_by leb uids) (has_uid-sort_by u uids ∙ n)
      (sort_by-IsAscending uids d)

filter-has_none :
    (p : ℕ → Bool) (uid : ℕ) (uids : List ℕ)
    → has_uid uid uids ≡ false
    → has_uid uid (filter p uids) ≡ false
filter-has_none p uid [] n = refl
filter-has_none p uid (v ∷ uids) n = ground (arith, filter-has_none p uid uids)

filter-AreDistinct : (p : ℕ → Bool) (uids : List ℕ) → AreDistinct uids → AreDistinct (filter p uids)
filter-AreDistinct p [] d = tt
filter-AreDistinct p (u ∷ uids) (n, d) = elim (Bool-cases (p u)) [
  | inl e ↦ simp e (filter-has_none p u uids n, filter-AreDistinct p uids d)
  | inr f ↦ simp f (filter-AreDistinct p uids d)
]

distinct_uids-AreDistinct : (uids : List ℕ) → AreDistinct (distinct_uids uids)
distinct_uids-AreDistinct [] = tt
distinct_uids-AreDistinct (u ∷ uids) = (
  has_uid-filter u u (distinct_uids uids) ∙ ground arith,
  filter-AreDistinct (λ v. not (v == u)) (distinct_uids uids) (distinct_uids-AreDistinct uids),
)

runs_from-AreApart :
    (low first last : ℕ) (sorted : List ℕ)
    → low + 1 < first
    → first ≤ last
    → IsAbove last sorted
    → AreApart low (runs_from first last sorted)
unfolding runs_from
runs_from-AreApart low first last [] h k a = (h, k, tt)
runs_from-AreApart low first last (u ∷ sorted) h k (b, a) = elim (Bool-cases (u == last + 1)) [
  | inl e ↦ simp e (runs_from-AreApart low first u sorted h (omega arith) a)
  | inr n ↦ simp n (h, k, runs_from-AreApart last u u sorted (ground arith) (omega arith) a)
]

runs_from-AreRuns :
    (first last : ℕ) (sorted : List ℕ)
    → first ≤ last
    → IsAbove last sorted
    → AreRuns (runs_from first last sorted)
unfolding runs_from
runs_from-AreRuns first last [] k a = (k, tt)
runs_from-AreRuns first last (u ∷ sorted) k (b, a) = elim (Bool-cases (u == last + 1)) [
  | inl e ↦ simp e (runs_from-AreRuns first u sorted (omega arith) a)
  | inr n ↦ simp n (k, runs_from-AreApart last u u sorted (ground arith) (omega arith) a)
]

is_covered-runs_of :
    (uid : ℕ) (sorted : List ℕ) → is_covered uid (runs_of sorted) ≡ has_uid uid sorted
is_covered-runs_of uid [] = refl
is_covered-runs_of uid (u ∷ sorted) =
    is_covered-runs_from uid u u sorted (omega arith) ∙ ground arith

runs_of-AreRuns : (sorted : List ℕ) → IsAscending sorted → AreRuns (runs_of sorted)
runs_of-AreRuns [] a = tt
runs_of-AreRuns (u ∷ sorted) a = runs_from-AreRuns u u sorted (omega arith) a

-- A UID set stands for exactly the given numbers, in whatever order and however often they are given, and it
-- is as short as can be: its runs ascend, and between any two there is a number that is not in the set.
pub uid_runs-AreRuns :
    (uids : List ℕ) (uid : ℕ)
    → (is_covered uid (uid_runs uids) ≡ has_uid uid uids) × AreRuns (uid_runs uids)
unfolding uid_runs
uid_runs-AreRuns uids uid = (
  is_covered-runs_of uid (sort_by leb (distinct_uids uids))
      ∙ has_uid-sort_by uid (distinct_uids uids)
      ∙ has_uid-distinct_uids uid uids,
  runs_of-AreRuns (sort_by leb (distinct_uids uids))
      (sort_by-IsAscending (distinct_uids uids) (distinct_uids-AreDistinct uids)),
)
