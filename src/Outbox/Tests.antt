-- ===== src/Outbox/Tests.antt =====
-- The outbox at concrete inputs.
use crypt_mail.Prelude.{
  ◌≡◌, ◌≢◌, refl, ◌↔◌, inl, none, some, [], ◌∷◌, In, Text, codes, text_eq, text_leb, trim, lookup,
  insert, values, sort_by, canonical,
}
use crypt_mail.Keyring.{upsert_key, directory, no_evidence}
use crypt_mail.Recipients.{missing, changed, resolve_recipient}
use crypt_mail.Outbox.{
  Held, ScheduledOutbox, upsert_scheduled, list_scheduled, hold_reason, due_scheduled,
  resolvable_held, time, awaiting_key,
}
use crypt_mail.Outbox.Release.{resolvable_held_iff, upsert_key-unresolvable}
use crypt_mail.Samples.{
  ascii, ann, key_of, f1, f2, t1, t2, ann_contact, ann_ring, me, held, one_waiting, texts_apart,
}

abbrev timed : Held
timed = held (codes "a") time t1

abbrev waiting : Held
waiting = held (codes "b") awaiting_key t1

abbrev both : ScheduledOutbox
both = upsert_scheduled one_waiting timed

due_scheduled_test : due_scheduled ascii both t2 ≡ timed ∷ []
unfolding due_scheduled list_scheduled sort_by values upsert_scheduled insert text_eq text_leb
    hold_reason
due_scheduled_test = refl

resolvable_held_iff_example : In waiting (resolvable_held ascii both ann_ring (some me)) ↔ (
    In waiting (values both)
    × (waiting.reason ≡ some awaiting_key)
    × ((email : Text)
        → In email (ann ∷ [])
        → ((resolve_recipient ascii ann_ring (some me) email).status ≢ missing)
          × ((resolve_recipient ascii ann_ring (some me) email).status ≢ changed)))
resolvable_held_iff_example = resolvable_held_iff ascii both ann_ring (some me) waiting

upsert_key-unresolvable_example :
    In waiting (
      resolvable_held ascii both
        (upsert_key ann_ring (key_of ann f2) directory none no_evidence t2)
        (some me))
    → ⊥
unfolding lookup text_eq canonical trim
upsert_key-unresolvable_example =
    upsert_key-unresolvable ascii both ann_ring (some me) (key_of ann f2) directory none t2 ann
      ann_contact waiting refl (texts_apart f1 f2 refl) (λ k h. absurd (cc h)) refl refl (inl refl)
