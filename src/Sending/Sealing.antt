-- ===== src/Sending/Sealing.antt =====
-- When the encrypted path sends, and when it refuses (app/src/state/send.ts, deliver).
use crypt_mail.Prelude.{
  ℕ, ◌≡◌, refl, sym, ap, ◌∙◌, subst, inl, inr, Bool, true, false, Option, none, some, List, [], ◌∷◌,
  ◌++◌, arith, ◌==◌, some_injective, filter, any, All, In, filter-In, In-append_left,
  In-append_right, map-In, Text, has_text_iff, Locale,
}
use crypt_mail.Prelude.Filed.{unique, has_text-unique}
use crypt_mail.Keyring.{ContactKey}
use crypt_mail.Recipients.{
  Identity, RecipientState, Status, resolve_recipient, resolve_recipient_states,
}
use crypt_mail.Outbox.{is_retired_level}
use crypt_mail.Sending.{recipients_of, with_own, hold_and_invite, deliver_to, deliver_as, deliver}
use crypt_mail.Sending.Parts.{
  Result, Outcome, refused, key_changed, level_or_default, is_status_changed, is_status_missing,
  emails_of, armored_keys, cons_armored, hand_over, after_handing,
}
use crypt_mail.Sending.Types.{SendInput, World, SendState, Rejection}
use crypt_mail.Sending.Protected.{after_handing-state, email_of-resolve_recipient}
use crypt_mail.Sending.Outcomes.{IsSealedUnder, IsDelivery, deliver-IsEnd}

-- Every recipient has a key, and the message is sealed to it.
abbrev pub Reaches : List Text → List RecipientState → Type 0
Reaches armored =
    All (λ (r : RecipientState). (key : ContactKey) × (r.key ≡ some key) × In key.armored armored)

Reaches-weaken :
    (fewer more : List Text) (recipients : List RecipientState)
    → ((k : Text) → In k fewer → In k more)
    → Reaches fewer recipients
    → Reaches more recipients
Reaches-weaken fewer more [] f h = tt
Reaches-weaken fewer more (r ∷ recipients) f ((key, e, i), h) =
    ((key, e, f key.armored i), Reaches-weaken fewer more recipients f h)

cons_armored-some :
    (key : Option ContactKey) (rest : Option (List Text)) (found : List Text)
    → cons_armored key rest ≡ some found
    → (c : ContactKey) × (others : List Text) × (key ≡ some c)
      × (rest ≡ some others)
      × (found ≡ c.armored ∷ others)
cons_armored-some none rest found h = absurd (cc h)
cons_armored-some (some c) none found h = absurd (cc h)
cons_armored-some (some c) (some others) found h = (c, others, refl, refl, cc h)

armored_keys-Reaches :
    (recipients : List RecipientState) (found : List Text)
    → armored_keys recipients ≡ some found
    → Reaches found recipients
unfolding armored_keys
armored_keys-Reaches [] found h = tt
armored_keys-Reaches (r ∷ recipients) found h =
    let (c, others, e, rest, same) = cons_armored-some r.key (armored_keys recipients) found h in
    subst (λ l. Reaches l (r ∷ recipients)) (sym same)
      (
        (c, e, inl refl),
        Reaches-weaken others (c.armored ∷ others) recipients (λ k i. inr i)
            (armored_keys-Reaches recipients others rest),
      )

pub with_own-Reaches :
    (loc : Locale) (world : World) (sender : Text) (me : Identity)
    (recipients : List RecipientState) (found : Option (List Text)) (armored : List Text)
    → found ≡ armored_keys recipients
    → with_own loc world sender me found ≡ some armored
    → Reaches armored recipients × In me.public_key_armored armored
with_own-Reaches loc world sender me recipients none armored e h = absurd (cc h)
with_own-Reaches loc world sender me recipients (some found) armored e h =
    let all_keys = found ++ me.public_key_armored ∷ [] in
    subst (λ l. Reaches l recipients × In me.public_key_armored l)
      (some_injective (unique all_keys) armored h)
      (
        Reaches-weaken found (unique all_keys) recipients
            (λ k i. In-unique k all_keys (In-append_left k found (me.public_key_armored ∷ []) i))
            (armored_keys-Reaches recipients found (sym e)),
        In-unique me.public_key_armored all_keys
            (In-append_right me.public_key_armored found (me.public_key_armored ∷ []) (inl refl)),
      )
  where
    In-unique : (k : Text) (l : List Text) → In k l → In k (unique l)
    In-unique k l i = (has_text_iff k (unique l)).0 (has_text-unique k l ∙ (has_text_iff k l).1 i)

-- What was handed over for a message that went out: one message, built by the core for keys that reach
-- everybody and the sender, none of whose recipients' keys is missing or changed.
abbrev pub IsSentTo : Locale → World → Text → Identity → SendInput → SendState → SendState → Type 0
IsSentTo loc world sender me input before after =
    let recipients = recipients_of loc world sender me input before in
    (m : Text) × (armored : List Text) × (level : ℕ) × (after.handed ≡ before.handed ++ m ∷ [])
    × (world.accept before.handed m ≡ none)
    × IsSealedUnder loc world sender me input armored level m
    × Reaches armored recipients
    × In me.public_key_armored armored
    × (any is_status_changed recipients ≡ false)
    × (any is_status_missing recipients ≡ false)

after_handing-sent :
    (answer : Option Rejection) (state : SendState)
    → (after_handing answer state).outcome ≡ Outcome.sent
    → answer ≡ none
after_handing-sent none state h = refl
after_handing-sent (some rejection) state h = absurd (cc h)

IsDelivery-IsSentTo :
    (loc : Locale) (world : World) (sender : Text) (me : Identity) (input : SendInput)
    (state : SendState) (result : Result)
    → IsDelivery loc world sender me input state result
    → result.outcome ≡ Outcome.sent
    → (level_or_default input.level == 2) ≡ false
    → IsSentTo loc world sender me input state result.state
unfolding hold_and_invite hand_over
IsDelivery-IsSentTo loc world sender me input state result (inl (refusal, keyring, e, found)) s n =
    absurd (cc (sym (ap (λ (r : Result). r.outcome) e) ∙ s))
IsDelivery-IsSentTo loc world sender me input state result (inr (inl (e, _, _))) s n =
    absurd (cc (sym (ap (λ (r : Result). r.outcome) e) ∙ s))
IsDelivery-IsSentTo loc world sender me input state result
      (inr (inr (archived, armored, level, m, under, inl two, e))) s n =
    absurd (cc (sym two ∙ n))
IsDelivery-IsSentTo loc world sender me input state result
      (inr (inr (archived, armored, level, m, under, inr (c, k, w), e))) s n =
    let reached =
      with_own-Reaches loc world sender me (recipients_of loc world sender me input state)
        (armored_keys (recipients_of loc world sender me input state)) armored refl w in
    (
      m,
      armored,
      level,
      ap (λ (r : Result). r.state.handed) e
          ∙ ap (λ (t : SendState). t.handed)
              (after_handing-state (world.accept state.handed m) (record state {
                keyring = world.discover input.to state.keyring;
                archived = archived;
                handed = state.handed ++ m ∷ [];
              })),
      after_handing-sent (world.accept state.handed m)
          (record state {
            keyring = world.discover input.to state.keyring;
            archived = archived;
            handed = state.handed ++ m ∷ [];
          })
          (sym (ap (λ (r : Result). r.outcome) e) ∙ s),
      under,
      reached.0,
      reached.1,
      c,
      k,
    )

-- When a message below level 2 is reported as sent, exactly one message was handed to the provider, who
-- took it; the core built it, it reads as sealed, and the keys it was built for hold the sender's own and
-- a key of every recipient, none of whose keys is missing or has changed.
pub deliver-IsSentTo :
    (loc : Locale) (world : World) (input : SendInput) (state : SendState)
    → (deliver loc world input state).outcome ≡ Outcome.sent
    → (level_or_default input.level == 2) ≡ false
    → (sender : Text) × (me : Identity) × (state.session ≡ some sender)
      × (state.identity ≡ some me)
      × IsSentTo loc world sender me input state (deliver loc world input state).state
deliver-IsSentTo loc world input state s n = elim (deliver-IsEnd loc world input state) [
  | inl e ↦ absurd (cc (sym (ap (λ (r : Result). r.outcome) e) ∙ s))
  | inr (sender, me, session, identity, d) ↦ (
    sender,
    me,
    session,
    identity,
    IsDelivery-IsSentTo loc world sender me input state (deliver loc world input state) d s n,
  )
]

any-In :
    (p : RecipientState → Bool) (r : RecipientState) (recipients : List RecipientState)
    → In r recipients
    → p r ≡ true
    → any p recipients ≡ true
any-In p r [] i h = absurd i
any-In p r (s ∷ recipients) i h = ground (arith, any-In p r recipients)

-- A recipient whose key changed stops the message, below level 2: it is refused with an error that names
-- this recipient, nothing is handed to the provider, held or archived, nobody is invited, and only the
-- keyring can differ afterwards.
pub deliver-key_changed :
    (loc : Locale) (world : World) (input : SendInput) (state : SendState) (sender : Text)
    (me : Identity) (email : Text)
    → state.connected ≡ true
    → state.session ≡ some sender
    → state.identity ≡ some me
    → is_retired_level input.level ≡ false
    → (level_or_default input.level == 2) ≡ false
    → In email input.to
    → (resolve_recipient loc (world.discover input.to state.keyring) (some me) email).status
      ≡ Status.changed
    → (named : List Text) × ((deliver loc world input state).outcome ≡ refused (key_changed named))
      × In email named
      × ((deliver loc world input state).state
          ≡ record state { keyring = world.discover input.to state.keyring })
unfolding deliver deliver_as deliver_to resolve_recipient_states
deliver-key_changed loc world input state sender me email c s i r n m h =
    let recipients = recipients_of loc world sender me input state in
    let recipient = resolve_recipient loc (world.discover input.to state.keyring) (some me) email in
    let listed =
      map-In (resolve_recipient loc (world.discover input.to state.keyring) (some me)) email
        input.to m in
    let blocked = is_status_changed-holds recipient h in
    let e = any-In is_status_changed recipient recipients listed blocked in
    (
      emails_of (filter is_status_changed recipients),
      simp (c, s, i, r, n, e),
      subst (λ e. In e (emails_of (filter is_status_changed recipients)))
          (email_of-resolve_recipient loc world sender me (world.discover input.to state.keyring)
            email)
          (map-In (λ (x : RecipientState). x.email) recipient (filter is_status_changed recipients)
            (filter-In is_status_changed recipient recipients listed blocked)),
      simp (c, s, i, r, n, e),
    )
  where
    is_status_changed-holds :
        (r : RecipientState) → r.status ≡ Status.changed → is_status_changed r ≡ true
    is_status_changed-holds r h = rw h refl
