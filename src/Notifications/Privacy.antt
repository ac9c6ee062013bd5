-- ===== src/Notifications/Privacy.antt =====
-- What a notification reveals, and when.
use crypt_mail.Prelude.{
  ℕ, ◌≡◌, refl, ap, inl, inr, Bool, true, false, ◌&&◌, ◌||◌, not, Option, List, [], ◌∷◌, map, ◌==◌,
  if◌then◌else◌, arith, Bool-cases, length, filter, length-map, Text,
}
use crypt_mail.Notifications.{
  is_empty_batch, NotificationPreview, NewMail, NotificationPlan, generic_text, is_readable,
  sender_of, one_content, several_content, content_for, reveals, plan_for, off, private, sender,
  full, no_post, post,
}

-- What a plan shows: always the same on the lock screen, and no more than that where nothing may be
-- revealed.
abbrev pub IsGuarded : ℕ → Bool → NotificationPlan → Type 0
IsGuarded count hidden no_post = Unit
IsGuarded count hidden (post lock_screen content) =
    (lock_screen ≡ generic_text count) × (hidden ≡ true → content ≡ generic_text count)

content_for-guarded :
    (preview : NotificationPreview) (count : ℕ) (readable : List NewMail)
    → is_empty_batch readable ≡ true
    → content_for preview count readable ≡ generic_text count
content_for-guarded preview count [] h = refl
content_for-guarded preview count (m ∷ readable) h = absurd (cc h)

-- Every notification shows the generic text for the number of new messages on the lock screen; and the
-- unlocked device shows no more than that where the device was locked at posting, where the setting is
-- private, or where no message of the batch is readable here.
pub plan_for-IsGuarded :
    (mail : List NewMail) (preview : NotificationPreview) (locked : Bool)
    → IsGuarded
        (length mail)
        (locked || (not (reveals preview) || is_empty_batch (filter is_readable mail)))
        (plan_for mail preview locked)
unfolding plan_for
plan_for-IsGuarded [] off locked = tt
plan_for-IsGuarded [] private locked = tt
plan_for-IsGuarded [] sender locked = tt
plan_for-IsGuarded [] full locked = tt
plan_for-IsGuarded (m ∷ mail) off locked = tt
plan_for-IsGuarded (m ∷ mail) private true = (refl, (λ h. refl))
plan_for-IsGuarded (m ∷ mail) private false = (refl, (λ h. refl))
plan_for-IsGuarded (m ∷ mail) sender true = (refl, (λ h. refl))
plan_for-IsGuarded (m ∷ mail) full true = (refl, (λ h. refl))
plan_for-IsGuarded (m ∷ mail) sender false =
    (refl, content_for-guarded sender (length (m ∷ mail)) (filter is_readable (m ∷ mail)))
plan_for-IsGuarded (m ∷ mail) full false =
    (refl, content_for-guarded full (length (m ∷ mail)) (filter is_readable (m ∷ mail)))

-- The envelope and the text of a message that this device cannot read, replaced by others.
abbrev readdressed : NewMail → NewMail → NewMail
readdressed other message = record message {
  from = other.from;
  from_name = other.from_name;
  subject = other.subject;
  snippet = other.snippet;
}

abbrev pub concealed : (NewMail → NewMail) → NewMail → NewMail
concealed other message =
    if message.encrypted && not message.decrypted
    then readdressed (other message) message
    else message

filter-concealed :
    (other : NewMail → NewMail) (mail : List NewMail)
    → filter is_readable (map (concealed other) mail) ≡ filter is_readable mail
filter-concealed other [] = refl
filter-concealed other (m ∷ mail) = elim (Bool-cases (m.encrypted && not m.decrypted)) [
  | inl e ↦
      let hidden : is_readable m ≡ false = ground arith in
      rw e (rw hidden (filter-concealed other mail))
  | inr n ↦ rw n (ap (λ ms. if is_readable m then m ∷ ms else ms) (filter-concealed other mail))
]

-- Nothing in the envelope or the text of an encrypted message that was not decrypted here reaches a
-- notification: with any other sender, name, subject and snippet in such messages it is the same.
pub plan_for-concealed :
    (other : NewMail → NewMail) (mail : List NewMail) (preview : NotificationPreview)
    (locked : Bool)
    → plan_for (map (concealed other) mail) preview locked ≡ plan_for mail preview locked
unfolding plan_for
plan_for-concealed other [] preview locked = refl
plan_for-concealed other (m ∷ mail) preview locked =
    rw (filter-concealed other (m ∷ mail), length-map (m ∷ mail) (concealed other)) refl

-- The same messages with other subjects and texts.
abbrev pub retold : (NewMail → Option Text) → (NewMail → Option Text) → NewMail → NewMail
retold subject_of snippet_of message = record message {
  subject = subject_of message;
  snippet = snippet_of message;
}

filter-retold :
    (subject_of snippet_of : NewMail → Option Text) (mail : List NewMail)
    → filter is_readable (map (retold subject_of snippet_of) mail)
      ≡ map (retold subject_of snippet_of) (filter is_readable mail)
filter-retold subject_of snippet_of [] = refl
filter-retold subject_of snippet_of (m ∷ mail) = elim (Bool-cases (is_readable m)) [
  | inl e ↦
      rw e
        (ap (λ ms. retold subject_of snippet_of m ∷ ms) (filter-retold subject_of snippet_of mail))
  | inr n ↦ rw n (filter-retold subject_of snippet_of mail)
]

senders-retold :
    (subject_of snippet_of : NewMail → Option Text) (mail : List NewMail)
    → map sender_of (map (retold subject_of snippet_of) mail) ≡ map sender_of mail
unfolding sender_of
senders-retold subject_of snippet_of [] = refl
senders-retold subject_of snippet_of (m ∷ mail) =
    ap (λ ts. sender_of m ∷ ts) (senders-retold subject_of snippet_of mail)

-- Whether the setting and the number of messages let a subject be shown.
abbrev tells : NotificationPreview → ℕ → Bool
tells full count = count == 1
tells _ count = false

several_content-retold :
    (subject_of snippet_of : NewMail → Option Text) (count : ℕ) (readable : List NewMail)
    → several_content count (map (retold subject_of snippet_of) readable)
      ≡ several_content count readable
unfolding several_content
several_content-retold subject_of snippet_of count readable = simp (
  senders-retold subject_of snippet_of readable,
  length-map readable (retold subject_of snippet_of),
)

content_for-retold :
    (subject_of snippet_of : NewMail → Option Text) (preview : NotificationPreview) (count : ℕ)
    (readable : List NewMail)
    → tells preview count ≡ false
    → content_for preview count (map (retold subject_of snippet_of) readable)
      ≡ content_for preview count readable
unfolding one_content sender_of
content_for-retold subject_of snippet_of preview count [] h = refl
content_for-retold subject_of snippet_of full count (m ∷ readable) h =
    simp h (several_content-retold subject_of snippet_of count (m ∷ readable))
content_for-retold subject_of snippet_of sender count (m ∷ readable) h =
    ap (λ c. if count == 1 then one_content sender m else c)
      (several_content-retold subject_of snippet_of count (m ∷ readable))
content_for-retold subject_of snippet_of private count (m ∷ readable) h =
    ap (λ c. if count == 1 then one_content private m else c)
      (several_content-retold subject_of snippet_of count (m ∷ readable))
content_for-retold subject_of snippet_of off count (m ∷ readable) h =
    ap (λ c. if count == 1 then one_content off m else c)
      (several_content-retold subject_of snippet_of count (m ∷ readable))

-- No subject and no text of a message reaches a notification, but for one new message under the setting
-- that shows both: in every other case the notification is the same with any other subjects and texts.
pub plan_for-retold :
    (subject_of snippet_of : NewMail → Option Text) (mail : List NewMail)
    (preview : NotificationPreview) (locked : Bool)
    → tells preview (length mail) ≡ false
    → plan_for (map (retold subject_of snippet_of) mail) preview locked
      ≡ plan_for mail preview locked
unfolding plan_for
plan_for-retold subject_of snippet_of [] preview locked h = refl
plan_for-retold subject_of snippet_of (m ∷ mail) preview locked h =
    rw
      (
        filter-retold subject_of snippet_of (m ∷ mail),
        length-map (m ∷ mail) (retold subject_of snippet_of),
        content_for-retold subject_of snippet_of preview (length (m ∷ mail))
            (filter is_readable (m ∷ mail)) h,
      )
      refl
