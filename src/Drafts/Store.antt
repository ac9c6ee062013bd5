-- ===== src/Drafts/Store.antt =====
-- The drafts list holds what was saved last, newest first.
use crypt_mail.Prelude.{
  ◌≡◌, ◌↔◌, none, some, if◌then◌else◌, In, Text, text_eq, lookup, values, lookup-insert,
  lookup-remove, IsSorted, In-sort_by, sort_by-In, sort_by-IsSorted, Locale, IsCollation,
}
use crypt_mail.Drafts.{Draft, Drafts, upsert_draft, remove_draft, newest_le, list_drafts}

-- After a draft is saved, it is found under its id and every other id finds what it found before; after
-- an id is removed, only that id finds nothing.
pub drafts_lookup :
    (drafts : Drafts) (draft : Draft) (id j : Text)
    → (lookup j (upsert_draft drafts draft)
        ≡ (if text_eq draft.id j then some draft else lookup j drafts))
      × (lookup j (remove_draft drafts id) ≡ (if text_eq id j then none else lookup j drafts))
unfolding upsert_draft remove_draft
drafts_lookup drafts draft id j = (lookup-insert draft.id j draft drafts, lookup-remove id j drafts)

-- The list holds exactly the stored drafts, the newest edited first.
pub list_drafts-IsSorted :
    (loc : Locale) (drafts : Drafts)
    → IsCollation loc
    → IsSorted (newest_le loc) (list_drafts loc drafts)
      × ((draft : Draft) → In draft (list_drafts loc drafts) ↔ In draft (values drafts))
unfolding list_drafts
list_drafts-IsSorted loc drafts c = (
  sort_by-IsSorted (newest_le loc)
      (record {
        total = λ a b h. c.order.total b.updated_at a.updated_at h;
        trans = λ a b d h k. c.order.trans d.updated_at b.updated_at a.updated_at k h;
      })
      (values drafts),
  λ draft. (
    In-sort_by (newest_le loc) draft (values drafts),
    sort_by-In (newest_le loc) draft (values drafts),
  ),
)
