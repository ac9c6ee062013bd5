-- ===== src/Sending/Lacking.antt =====
-- The recipients without a key (app/src/state/send.ts, deliver).
use crypt_mail.Prelude.{
  ◌≡◌, refl, sym, ◌∙◌, subst, ◌≢◌, ◌↔◌, inl, inr, Bool, true, false, some, List, [], ◌∷◌, arith,
  Bool-cases, filter, any, In, Text, Locale,
}
use crypt_mail.Keyring.{Keyring}
use crypt_mail.Recipients.{
  Identity, RecipientState, Status, ok, verified, missing, changed, resolve_recipient,
  resolve_recipient_states,
}
use crypt_mail.Sending.Parts.{is_status_changed, is_status_missing, emails_of}
use crypt_mail.Sending.Types.{World}
use crypt_mail.Sending.Protected.{email_of-resolve_recipient}

pub is_status_missing_iff :
    (r : RecipientState) → (is_status_missing r ≡ true) ↔ (r.status ≡ missing)
is_status_missing_iff r = by_status r.status
  where
    by_status : (s : Status) → (is_status_missing (record r { status = s }) ≡ true) ↔ (s ≡ missing)
    by_status ok = ((λ h. absurd (cc h)), (λ h. absurd (cc h)))
    by_status verified = ((λ h. absurd (cc h)), (λ h. absurd (cc h)))
    by_status Status.changed = ((λ h. absurd (cc h)), (λ h. absurd (cc h)))
    by_status missing = ((λ h. refl), (λ h. refl))

pub unchanged_status : (r : RecipientState) → is_status_changed r ≡ false → r.status ≢ changed
unchanged_status r = by_status r.status
  where
    by_status : (s : Status) → is_status_changed (record r { status = s }) ≡ false → s ≢ changed
    by_status ok n e = cc e
    by_status verified n e = cc e
    by_status Status.changed n e = cc n
    by_status missing n e = cc e

module _ (loc : Locale) (world : World) (sender : Text) (me : Identity) (keyring : Keyring) where
  abbrev status_of : Text → Status
  status_of email = (resolve_recipient loc keyring (some me) email).status

  abbrev pub lacking : List Text → List Text
  lacking to =
      emails_of (filter is_status_missing (resolve_recipient_states loc keyring (some me) to))

  pub lacking-In :
      (to : List Text) (email : Text)
      → In email (lacking to) ↔ (In email to × (status_of email ≡ missing))
  unfolding resolve_recipient_states
  lacking-In [] email = (absurd, (λ h. h.0))
  lacking-In (e ∷ to) email = elim (Bool-cases (is_status_missing found)) [
    | inl lost ↦ rw lost (
      (λ i. elim i [
        | inl here ↦ (
          inl (here ∙ spelt),
          subst (λ x. status_of x ≡ missing) (sym (here ∙ spelt)) (lacks lost),
        )
        | inr later ↦
            let (listed, none_there) = (lacking-In to email).0 later in (inr listed, none_there)
      ]),
      (λ h. elim h.0 [
        | inl here ↦ inl (here ∙ sym spelt)
        | inr later ↦ inr ((lacking-In to email).1 (later, h.1))
      ]),
    )
    | inr held ↦ rw held (
      (λ i. let (listed, none_there) = (lacking-In to email).0 i in (inr listed, none_there)),
      (λ h. elim h.0 [
        | inl here ↦ absurd (
            cc
              (held, (is_status_missing_iff found).1 (subst (λ x. status_of x ≡ missing) here h.1)))
        | inr later ↦ (lacking-In to email).1 (later, h.1)
      ]),
    )
  ]
    where
      found : RecipientState
      found = resolve_recipient loc keyring (some me) e

      spelt : found.email ≡ e
      spelt = email_of-resolve_recipient loc world sender me keyring e

      lacks : is_status_missing found ≡ true → status_of e ≡ missing
      lacks lost = (is_status_missing_iff found).0 lost

  pub lacking-some :
      (to : List Text)
      → any is_status_missing (resolve_recipient_states loc keyring (some me) to) ≡ true
      → lacking to ≢ []
  unfolding resolve_recipient_states
  lacking-some [] h = absurd (cc h)
  lacking-some (t ∷ to) h =
      elim (Bool-cases (is_status_missing (resolve_recipient loc keyring (some me) t))) [
        | inl lost ↦ rw lost (λ e. cc e)
        | inr held ↦ rw held (lacking-some to (simp held at h))
      ]

  pub none_such :
      (p : RecipientState → Bool) (to : List Text) (email : Text)
      → any p (resolve_recipient_states loc keyring (some me) to) ≡ false
      → In email to
      → p (resolve_recipient loc keyring (some me) email) ≡ false
  unfolding resolve_recipient_states
  none_such p [] email h i = absurd i
  none_such p (t ∷ to) email h (inl here) =
      subst (λ x. p (resolve_recipient loc keyring (some me) x) ≡ false) (sym here) (ground arith)
  none_such p (t ∷ to) email h (inr later) = none_such p to email (ground arith) later
