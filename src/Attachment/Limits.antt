-- ===== src/Attachment/Limits.antt =====
-- The limits hold, and what a draft stores fits.
use crypt_mail.Prelude.{
  ℕ, ◌+◌, ◌-◌, ◌≤◌, ◌≡◌, refl, inl, inr, Bool, not, none, List, [], ◌∷◌, ◌++◌, arith, leb, le→leb,
  Bool-cases, filter, Text,
}
use crypt_mail.Attachment.{
  max_attachment_bytes, max_total_attachment_bytes, max_stored_attachment_bytes, Attachment,
  total_bytes, attachment_refusal, split_within, split_for_storage, has_id, add_attachment,
}

total_bytes-append :
    (xs ys : List Attachment) → total_bytes (xs ++ ys) ≡ total_bytes xs + total_bytes ys
unfolding total_bytes
total_bytes-append [] ys = omega arith
total_bytes-append (x ∷ xs) ys = omega (arith, total_bytes-append xs ys)

total_bytes-filter_le :
    (p : Attachment → Bool) (xs : List Attachment) → total_bytes (filter p xs) ≤ total_bytes xs
unfolding total_bytes
total_bytes-filter_le p [] = omega arith
total_bytes-filter_le p (x ∷ xs) = ground (arith, total_bytes-filter_le p xs)

total_bytes_one : (next : Attachment) → total_bytes (next ∷ []) ≡ next.size
unfolding total_bytes
total_bytes_one next = omega arith

-- A file that is not refused keeps the message within its total once it is added, in place of any file
-- of the same id.
pub attachment_refusal-add_attachment :
    (existing : List Attachment) (next : Attachment)
    → attachment_refusal next.size existing ≡ none
    → (next.size ≤ max_attachment_bytes)
      × (total_bytes (add_attachment existing next) ≤ max_total_attachment_bytes)
unfolding attachment_refusal add_attachment
attachment_refusal-add_attachment existing next h = (
  ground arith,
  ground (
    arith,
    total_bytes-append (filter (λ a. not (has_id next.id a)) existing) (next ∷ []),
    total_bytes-filter_le (λ a. not (has_id next.id a)) existing,
    total_bytes_one next,
  ),
)

-- The order and the number of the files, over what is stored and what is named.
pub data Splits : List Attachment → List Attachment → List Text → Type 0 where
  done : Splits [] [] []
  stored_one :
      (a : Attachment) {list stored : List Attachment} {omitted : List Text}
      → Splits list stored omitted
      → Splits (a ∷ list) (a ∷ stored) omitted
  named_one :
      (a : Attachment) {list stored : List Attachment} {omitted : List Text}
      → Splits list stored omitted
      → Splits (a ∷ list) stored (a.name ∷ omitted)

split_within-Splits :
    (budget : ℕ) (list : List Attachment)
    → Splits list (split_within budget list).stored (split_within budget list).omitted
unfolding split_within
split_within-Splits budget [] = done
split_within-Splits budget (a ∷ list) = elim (Bool-cases (leb a.size budget)) [
  | inl e ↦ rw (e, split_within) (stored_one a (split_within-Splits (budget - a.size) list))
  | inr n ↦ rw (n, split_within) (named_one a (split_within-Splits budget list))
]

split_within-fits :
    (budget : ℕ) (list : List Attachment) → total_bytes (split_within budget list).stored ≤ budget
unfolding split_within total_bytes
split_within-fits budget [] = omega arith
split_within-fits budget (a ∷ list) =
    ground (arith, split_within-fits (budget - a.size) list, split_within-fits budget list)

split_within-all :
    (budget : ℕ) (list : List Attachment)
    → total_bytes list ≤ budget
    → split_within budget list ≡ record { stored = list; omitted = [] }
unfolding split_within total_bytes
split_within-all budget [] h = refl
split_within-all budget (a ∷ list) h =
    rw (le→leb a.size budget (omega arith), split_within)
      (rw (split_within-all (budget - a.size) list (omega arith)))

-- A draft stores files within its budget, in order, and names every file that it leaves out; files that
-- fit together are all stored and none is named.
pub split_for_storage-Splits :
    (list : List Attachment)
    → Splits list (split_for_storage list).stored (split_for_storage list).omitted
      × (total_bytes (split_for_storage list).stored ≤ max_stored_attachment_bytes)
      × (total_bytes list ≤ max_stored_attachment_bytes
          → split_for_storage list ≡ record { stored = list; omitted = [] })
unfolding split_for_storage
split_for_storage-Splits list = (
  split_within-Splits max_stored_attachment_bytes list,
  split_within-fits max_stored_attachment_bytes list,
  split_within-all max_stored_attachment_bytes list,
)
