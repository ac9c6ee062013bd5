-- ===== src/Sending/Ends.antt =====
-- How a delivery ends (app/src/state/send.ts, deliver), told by what it leaves behind.
use crypt_mail.Prelude.{
  ℕ, ◌≡◌, refl, sym, subst, ◌≢◌, ◌↔◌, ◌⊎◌, inl, inr, true, false, Option, none, some, List, [], ◌∷◌,
  ◌++◌, ◌==◌, Bool-cases, any, In, Text, Locale,
}
use crypt_mail.Keyring.{Keyring}
use crypt_mail.Recipients.{Identity, missing, changed, resolve_recipient}
use crypt_mail.Sending.{recipients_of, looked_up, hold_and_invite, deliver}
use crypt_mail.Sending.Parts.{
  Result, Outcome, refused, queued, rejected, not_connected, give, level_or_default,
  is_status_changed, is_status_missing, armored_keys, held_for, hold_back, hand_over, after_handing,
}
use crypt_mail.Sending.Types.{SendInput, World, SendState, Archived, Rejection}
use crypt_mail.Sending.Invites.{InviteRun, store_run, invite_each, new_run, send_invites}
use crypt_mail.Sending.Protected.{Adds, IsInvite, send_invites-Adds}
use crypt_mail.Sending.Sealing.{Reaches, with_own-Reaches}
use crypt_mail.Sending.Holding.{LeavesOutbox, hold_and_invite-LeavesOutbox}
use crypt_mail.Sending.Outcomes.{IsSealedUnder, IsAddressed, IsRefusal, IsDelivery, deliver-IsEnd}
use crypt_mail.Sending.Lacking.{
  is_status_missing_iff, unchanged_status, lacking, lacking-In, lacking-some, none_such,
}

-- Held: for the recipients without a key, of whom there are some, none of the others having a changed one;
-- whole in the outbox, in memory as stored; and nothing handed over but invites to them.
abbrev pub IsHeld : Locale → World → Text → Identity → SendInput → SendState → Result → Type 0
IsHeld loc world sender me input state result =
    let found = world.discover input.to state.keyring in
    (pending : List Text) × (result.outcome ≡ queued pending)
    × (pending ≢ [])
    × ((email : Text)
        → In email pending
          ↔ (In email input.to × ((resolve_recipient loc found (some me) email).status ≡ missing)))
    × ((email : Text)
        → In email input.to
        → (resolve_recipient loc found (some me) email).status ≢ changed)
    × LeavesOutbox world input state (queued pending) result.state
    × Adds (IsInvite loc world sender me pending) state.handed result.state.handed
    × (result.state.archived ≡ state.archived)
    × (result.state.keyring ≡ found)

-- Handed over: one message, sealed by the core for this input, and the answer is the provider's.
abbrev pub IsHandedOver : Locale → World → Text → Identity → SendInput → SendState → Result → Type 0
IsHandedOver loc world sender me input state result =
    let found = world.discover input.to state.keyring in
    (archived : List Archived) × (armored : List Text) × (level : ℕ) × (m : Text) × IsSealedUnder
      loc world sender me input armored level m
    × (((level_or_default input.level == 2) ≡ true)
        ⊎ (((email : Text)
              → In email input.to
              → ((resolve_recipient loc found (some me) email).status ≢ changed)
                × ((resolve_recipient loc found (some me) email).status ≢ missing))
            × Reaches armored (recipients_of loc world sender me input state)
            × In me.public_key_armored armored))
    × (result.state
        ≡ record state { keyring = found; archived = archived; handed = state.handed ++ m ∷ [] })
    × (((world.accept state.handed m ≡ none) × (result.outcome ≡ Outcome.sent))
        ⊎ ((why : Rejection) × (world.accept state.handed m ≡ some why)
            × (result.outcome ≡ refused (rejected why))))

store_run-kept :
    (loc : Locale) (world : World) (sender armored : Text) (gathered : InviteRun)
    (state : SendState)
    → ((store_run loc world sender armored gathered state).archived ≡ state.archived)
      × ((store_run loc world sender armored gathered state).keyring ≡ state.keyring)
unfolding store_run
store_run-kept loc world sender armored gathered state = elim (Bool-cases gathered.recorded) [
  | inl e ↦ simp e (refl, refl)
  | inr n ↦ simp n (refl, refl)
]

after_handing_cases :
    (answer : Option Rejection) (state : SendState)
    → ((after_handing answer state).state ≡ state)
      × (((answer ≡ none) × ((after_handing answer state).outcome ≡ Outcome.sent))
          ⊎ ((why : Rejection) × (answer ≡ some why)
              × ((after_handing answer state).outcome ≡ refused (rejected why))))
after_handing_cases none state = (refl, inl (refl, refl))
after_handing_cases (some why) state = (refl, inr (why, refl, refl))

module _ (loc : Locale) (world : World) (sender : Text) (me : Identity) (input : SendInput)
    (state : SendState) where
  abbrev found : Keyring
  found = world.discover input.to state.keyring

  abbrev waiting_for : List Text
  waiting_for = lacking loc world sender me found input.to

  hold_and_invite-IsHeld :
      any is_status_changed (recipients_of loc world sender me input state) ≡ false
      → any is_status_missing (recipients_of loc world sender me input state) ≡ true
      → IsHeld loc world sender me input state (
          hold_and_invite loc world sender me input waiting_for
            (looked_up loc world sender me input state))
  unfolding hold_and_invite send_invites hold_back
  hold_and_invite-IsHeld unchanged some_missing =
      let kept =
        store_run-kept loc world sender me.public_key_armored
          (invite_each loc world sender me.public_key_armored waiting_for
            (new_run (looked_up loc world sender me input state)))
          (hold_back (held_for world input waiting_for)
            (looked_up loc world sender me input state)) in
      (
        waiting_for,
        refl,
        lacking-some loc world sender me found input.to some_missing,
        lacking-In loc world sender me found input.to,
        λ email i.
            unchanged_status (resolve_recipient loc found (some me) email)
              (none_such loc world sender me found is_status_changed input.to email unchanged i),
        hold_and_invite-LeavesOutbox loc world sender me input waiting_for
            (looked_up loc world sender me input state),
        send_invites-Adds loc world sender me waiting_for (
            hold_back (held_for world input waiting_for)
              (looked_up loc world sender me input state)),
        kept.0,
        kept.1,
      )

  addressed :
      (armored : List Text) (level : ℕ)
      → IsAddressed loc world sender me input found armored level
      → ((level_or_default input.level == 2) ≡ true)
        ⊎ (((email : Text)
              → In email input.to
              → ((resolve_recipient loc found (some me) email).status ≢ changed)
                × ((resolve_recipient loc found (some me) email).status ≢ missing))
            × Reaches armored (recipients_of loc world sender me input state)
            × In me.public_key_armored armored)
  addressed armored level (inl two) = inl two
  addressed armored level (inr (unchanged, held, keys)) =
      let reached =
        with_own-Reaches loc world sender me (recipients_of loc world sender me input state)
          (armored_keys (recipients_of loc world sender me input state)) armored refl keys in
      inr (
        (λ email i. (
          unchanged_status (resolve_recipient loc found (some me) email)
              (none_such loc world sender me found is_status_changed input.to email unchanged i),
          λ lost. cc (
            none_such loc world sender me found is_status_missing input.to email held i,
            (is_status_missing_iff (resolve_recipient loc found (some me) email)).1 lost,
          ),
        )),
        reached.0,
        reached.1,
      )

  hand_over-IsHandedOver :
      (archived : List Archived) (armored : List Text) (level : ℕ) (m : Text)
      → IsSealedUnder loc world sender me input armored level m
      → IsAddressed loc world sender me input found armored level
      → IsHandedOver loc world sender me input state
          (hand_over world m (record state { keyring = found; archived = archived }))
  unfolding hand_over
  hand_over-IsHandedOver archived armored level m under whom =
      let (left, answer) =
        after_handing_cases (world.accept state.handed m) (record state {
          keyring = found;
          archived = archived;
          handed = state.handed ++ m ∷ [];
        }) in
      (archived, armored, level, m, under, addressed armored level whom, left, answer)

-- The three ways of a call where there is a session and an identity.
abbrev pub IsEnding : Locale → World → SendInput → SendState → Result → Type 0
IsEnding loc world input state result =
    (result ≡ give (refused not_connected) state)
    ⊎ ((sender : Text) × (me : Identity) × (state.session ≡ some sender)
        × (state.identity ≡ some me)
        × (IsRefusal loc world sender me input state result
            ⊎ IsHeld loc world sender me input state result
            ⊎ IsHandedOver loc world sender me input state result))

IsDelivery-IsEnding :
    (loc : Locale) (world : World) (sender : Text) (me : Identity) (input : SendInput)
    (state : SendState) (result : Result)
    → IsDelivery loc world sender me input state result
    → IsRefusal loc world sender me input state result
      ⊎ IsHeld loc world sender me input state result
      ⊎ IsHandedOver loc world sender me input state result
IsDelivery-IsEnding loc world sender me input state result (inl refusal) = inl refusal
IsDelivery-IsEnding loc world sender me input state result (inr (inl (e, unchanged, missed))) =
    inr (
      inl (
        subst (IsHeld loc world sender me input state) (sym e)
          (hold_and_invite-IsHeld loc world sender me input state unchanged missed)))
IsDelivery-IsEnding loc world sender me input state result
      (inr (inr (archived, armored, level, m, under, whom, e))) =
    inr (
      inr (
        subst (IsHandedOver loc world sender me input state) (sym e) (
          hand_over-IsHandedOver loc world sender me input state archived armored level m under
            whom)))

-- A delivery ends in one of three ways, and sending the plain message is none of them. It is refused, and
-- then nothing has changed but that the keyring may be what the search for keys left of it. Or it is held:
-- it stands whole in the outbox, waiting for exactly the recipients that have no key, of whom there are some
-- while nobody's key has changed, and nothing was handed to the provider but invites to these. Or one message
-- was handed over, which the core built for the input and which reads as sealed, and the call reports the
-- provider's answer; below level 2 this happens only where no recipient's key is missing or changed, and it
-- was built for keys of them all and the sender's own.
pub deliver-IsEnding :
    (loc : Locale) (world : World) (input : SendInput) (state : SendState)
    → IsEnding loc world input state (deliver loc world input state)
deliver-IsEnding loc world input state = elim (deliver-IsEnd loc world input state) [
  | inl e ↦ inl e
  | inr (sender, me, s, i, d) ↦ inr (
    sender,
    me,
    s,
    i,
    IsDelivery-IsEnding loc world sender me input state (deliver loc world input state) d,
  )
]
