-- ===== src/Sending/Protected.antt =====
-- What the encrypted path puts on the wire: sealed messages, and invites that say nothing of a message.
use crypt_mail.Prelude.{
  ℕ, ◌≡◌, refl, sym, ap, ◌∙◌, subst, ◌⊎◌, inl, inr, Bool, Option, none, some, List, [], ◌∷◌, ◌++◌,
  Bool-cases, filter, In, In-filter, In-append, In-map, Text, Locale,
}
use crypt_mail.Keyring.{Keyring, ContactKey, find_key}
use crypt_mail.Recipients.{
  Identity, RecipientState, resolve_recipient, resolve_recipient_states, is_own, contact_state,
}
use crypt_mail.Sending.{recipients_of, looked_up, hold_and_invite, deliver}
use crypt_mail.Sending.Parts.{
  Result, is_status_missing, emails_of, held_for, hold_back, after_handing, hand_over,
}
use crypt_mail.Sending.Outcomes.{IsSealedUnder, IsDelivery, deliver-IsEnd}
use crypt_mail.Sending.Types.{SendInput, Rejection, World, SendState, is_accepted}
use crypt_mail.Sending.Invites.{
  InviteRun, new_run, invite, invite_one, invite_each, store_run, send_invites, should_invite,
}

pub after_handing-state :
    (answer : Option Rejection) (state : SendState) → (after_handing answer state).state ≡ state
after_handing-state none state = refl
after_handing-state (some rejection) state = refl

-- All that stands in the second list stood in the first, or has the property.
abbrev pub Adds : (Text → Type 0) → List Text → List Text → Type 0
Adds P before after = (m : Text) → In m after → In m before ⊎ P m

-- An invite to one of these people.
abbrev pub IsInvite : Locale → World → Text → Identity → List Text → Text → Type 0
IsInvite loc world sender me emails m =
    (email : Text) × In email emails × (m ≡ invite loc world sender me.public_key_armored email)

Adds-last :
    (P : Text → Type 0) (before : List Text) (message : Text)
    → P message
    → Adds P before (before ++ message ∷ [])
Adds-last P before message p m h = elim (In-append m before (message ∷ []) h) [
  | inl old ↦ inl old
  | inr (inl e) ↦ inr (subst P (sym e) p)
  | inr (inr n) ↦ absurd n
]

Adds-hand_over :
    (P : Text → Type 0) (world : World) (message : Text) (state : SendState)
    → P message
    → Adds P state.handed (hand_over world message state).state.handed
unfolding hand_over
Adds-hand_over P world message state p =
    subst (λ (s : SendState). Adds P state.handed s.handed)
      (sym (
        after_handing-state (world.accept state.handed message)
          (record state { handed = state.handed ++ message ∷ [] })))
      (Adds-last P state.handed message p)

module _ (loc : Locale) (world : World) (sender : Text) (me : Identity) where
  invite_one-handed :
      (email : Text) (gathered : InviteRun)
      → (invite_one loc world sender me.public_key_armored email gathered).handed
        ≡ gathered.handed ++ invite loc world sender me.public_key_armored email ∷ []
  unfolding invite_one
  invite_one-handed email gathered =
      elim (Bool-cases (
        is_accepted
          (world.accept gathered.handed (invite loc world sender me.public_key_armored email)))) [
            | inl e ↦ simp e
            | inr n ↦ simp n
          ]

  invite_each-Adds :
      (emails : List Text) (gathered : InviteRun)
      → Adds
          (IsInvite loc world sender me emails)
          gathered.handed
          (invite_each loc world sender me.public_key_armored emails gathered).handed
  unfolding invite_each
  invite_each-Adds [] gathered m h = inl h
  invite_each-Adds (email ∷ emails) gathered m h =
      elim (Bool-cases (should_invite loc world gathered.log email world.now_ms)) [
        | inl e ↦
            elim (invite_each-Adds emails
              (invite_one loc world sender me.public_key_armored email gathered) m (simp e at h)) [
                | inl before ↦
                    elim (In-append m gathered.handed
                      (invite loc world sender me.public_key_armored email ∷ [])
                      (subst (λ l. In m l) (invite_one-handed email gathered) before)) [
                        | inl old ↦ inl old
                        | inr (inl same) ↦ inr (email, inl refl, same)
                        | inr (inr never) ↦ absurd never
                      ]
                | inr (other, i, same) ↦ inr (other, inr i, same)
              ]
        | inr n ↦ elim (invite_each-Adds emails gathered m (simp n at h)) [
          | inl old ↦ inl old
          | inr (other, i, same) ↦ inr (other, inr i, same)
        ]
      ]

  store_run-handed :
      (gathered : InviteRun) (state : SendState)
      → (store_run loc world sender me.public_key_armored gathered state).handed ≡ gathered.handed
  unfolding store_run
  store_run-handed gathered state = elim (Bool-cases gathered.recorded) [
    | inl e ↦ simp e
    | inr n ↦ simp n
  ]

  pub send_invites-Adds :
      (emails : List Text) (state : SendState)
      → Adds
          (IsInvite loc world sender me emails)
          state.handed
          (send_invites loc world sender me.public_key_armored emails state).handed
  unfolding send_invites
  send_invites-Adds emails state =
      subst (Adds (IsInvite loc world sender me emails) state.handed)
        (sym (
          store_run-handed
            (invite_each loc world sender me.public_key_armored emails (new_run state)) state))
        (invite_each-Adds emails (new_run state))

  pub email_of-resolve_recipient :
      (keyring : Keyring) (email : Text)
      → (resolve_recipient loc keyring (some me) email).email ≡ email
  unfolding resolve_recipient contact_state
  email_of-resolve_recipient keyring email = elim (Bool-cases (is_own loc (some me) email)) [
    | inl e ↦ simp e
    | inr n ↦ simp n (contact_state-email email (find_key loc keyring email))
  ]
    where
      contact_state-email :
          (email : Text) (entry : Option ContactKey) → (contact_state email entry).email ≡ email
      contact_state-email email none = refl
      contact_state-email email (some key) = refl

  pub emails_of-In :
      (p : RecipientState → Bool) (keyring : Keyring) (to : List Text) (email : Text)
      → In email (emails_of (filter p (resolve_recipient_states loc keyring (some me) to)))
      → In email to
  unfolding resolve_recipient_states
  emails_of-In p keyring to email h =
      let (r, i, e) =
        In-map (λ (r : RecipientState). r.email) email
          (filter p (resolve_recipient_states loc keyring (some me) to)) h in
      let (original, j, same) =
        In-map (resolve_recipient loc keyring (some me)) r to
          (In-filter p r (resolve_recipient_states loc keyring (some me) to) i).0 in
      subst (λ x. In x to)
        (sym (
          e
          ∙ ap (λ (s : RecipientState). s.email) same
          ∙ email_of-resolve_recipient keyring original))
        j

-- What the encrypted path may put on the wire for a message: what the core built for it and reads as
-- sealed, and invites to its recipients.
abbrev pub IsProtected : Locale → World → Text → Identity → SendInput → Text → Type 0
IsProtected loc world sender me input m =
    ((armored : List Text) × (level : ℕ) × IsSealedUnder loc world sender me input armored level m)
    ⊎ IsInvite loc world sender me input.to m

module _ (loc : Locale) (world : World) (sender : Text) (me : Identity) (input : SendInput) where
  hold_and_invite-Adds :
      (pending : List Text) (state : SendState)
      → ((email : Text) → In email pending → In email input.to)
      → Adds
          (IsProtected loc world sender me input)
          state.handed
          (hold_and_invite loc world sender me input pending state).state.handed
  unfolding hold_and_invite hold_back
  hold_and_invite-Adds pending state within m h =
      elim (send_invites-Adds loc world sender me pending
        (hold_back (held_for world input pending) state) m h) [
          | inl old ↦ inl old
          | inr (email, i, e) ↦ inr (inr (email, within email i, e))
        ]

  IsDelivery-Adds :
      (state : SendState) (result : Result)
      → IsDelivery loc world sender me input state result
      → Adds (IsProtected loc world sender me input) state.handed result.state.handed
  IsDelivery-Adds state result (inl (refusal, keyring, e, found)) m h =
      inl (subst (λ (r : Result). In m r.state.handed) e h)
  IsDelivery-Adds state result (inr (inl (e, _, _))) m h =
      hold_and_invite-Adds
        (emails_of (filter is_status_missing (recipients_of loc world sender me input state)))
        (looked_up loc world sender me input state)
        (emails_of-In loc world sender me is_status_missing (world.discover input.to state.keyring)
          input.to)
        m (subst (λ (r : Result). In m r.state.handed) e h)
  IsDelivery-Adds state result (inr (inr (archived, armored, level, message, is_sealed, _, e))) m
        h =
      Adds-hand_over (IsProtected loc world sender me input) world message
        (record state { keyring = world.discover input.to state.keyring; archived = archived })
        (inl (armored, level, is_sealed)) m (subst (λ (r : Result). In m r.state.handed) e h)

-- Nothing that the encrypted path hands to the provider is the message in the clear: whatever `deliver`
-- hands over, on every branch and whatever it returns, is either what the core built for this message,
-- which passed the test for sealed mail, or an invite to one of the recipients, whose words depend on the
-- sender's address and key and on the recipient's address alone.
pub deliver-IsProtected :
    (loc : Locale) (world : World) (input : SendInput) (state : SendState) (m : Text)
    → In m (deliver loc world input state).state.handed
    → In m state.handed
      ⊎ ((sender : Text) × (me : Identity) × (state.session ≡ some sender)
          × (state.identity ≡ some me)
          × IsProtected loc world sender me input m)
deliver-IsProtected loc world input state m h = elim (deliver-IsEnd loc world input state) [
  | inl e ↦ inl (subst (λ (r : Result). In m r.state.handed) e h)
  | inr (sender, me, s, i, d) ↦
      elim (IsDelivery-Adds loc world sender me input state (deliver loc world input state) d m h) [
        | inl old ↦ inl old
        | inr p ↦ inr (sender, me, s, i, p)
      ]
]
