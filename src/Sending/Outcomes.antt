-- ===== src/Sending/Outcomes.antt =====
-- The three ways a delivery ends (app/src/state/send.ts): it is refused, it is held, or what was sealed is
-- handed over. Each theorem about `deliver` follows from these cases.
use crypt_mail.Prelude.{
  ℕ, ◌≡◌, refl, subst, ◌⊎◌, inl, inr, Bool, true, false, Option, none, some, List, [], ◌==◌,
  if◌then◌else◌, Bool-cases, filter, any, Text, Locale,
}
use crypt_mail.Keyring.{Keyring}
use crypt_mail.Recipients.{Identity, resolve_recipient_states}
use crypt_mail.Outbox.{is_retired_level, is_nil}
use crypt_mail.Sending.{
  recipients_of, looked_up, archive_then_send, send_qkd, build_qkd, with_own, wraps, deliver_qkd,
  send_pgp, build_pgp, hold_and_invite, deliver_to, deliver_as, deliver_for, deliver,
}
use crypt_mail.Sending.Parts.{
  Result, Refusal, refused, not_connected, give, level_or_default, is_status_changed,
  is_status_missing, emails_of, armored_keys, request_for, hand_over, can_send_encrypted,
}
use crypt_mail.Sending.Types.{SendInput, Built, built, not_built, World, SendState, Archived}

module _ (loc : Locale) (world : World) (sender : Text) (me : Identity) (input : SendInput) where
  -- The core built this for the message and these keys, and it reads as sealed.
  abbrev pub IsSealedUnder : List Text → ℕ → Text → Type 0
  IsSealedUnder armored level m =
      (world.build_encrypted (request_for sender me input armored level) ≡ built m)
      × ((world.is_pgp_mime m ≡ true) ⊎ (world.is_qkd_message m ≡ true))

  -- At level 1 nobody's key is missing or changed, and the keys are everybody's and one's own.
  abbrev pub IsAddressed : Keyring → List Text → ℕ → Type 0
  IsAddressed keyring armored level =
      let recipients = resolve_recipient_states loc keyring (some me) input.to in
      ((level_or_default input.level == 2) ≡ true)
      ⊎ ((any is_status_changed recipients ≡ false)
          × (any is_status_missing recipients ≡ false)
          × (with_own loc world sender me (armored_keys recipients) ≡ some armored))

  abbrev pub IsRefusal : SendState → Result → Type 0
  IsRefusal state result =
      (refusal : Refusal) × (keyring : Keyring) × (result
        ≡ give (refused refusal) (record state { keyring = keyring }))
      × ((keyring ≡ state.keyring) ⊎ (keyring ≡ world.discover input.to state.keyring))

  abbrev pub IsHold : SendState → Result → Type 0
  IsHold state result =
      (result
        ≡ hold_and_invite loc world sender me input
            (emails_of (filter is_status_missing (recipients_of loc world sender me input state)))
            (looked_up loc world sender me input state))
      × (any is_status_changed (recipients_of loc world sender me input state) ≡ false)
      × (any is_status_missing (recipients_of loc world sender me input state) ≡ true)

  abbrev pub IsSend : SendState → Result → Type 0
  IsSend state result =
      (archived : List Archived) × (armored : List Text) × (level : ℕ) × (m : Text) × IsSealedUnder
        armored level m
      × IsAddressed (world.discover input.to state.keyring) armored level
      × (result
          ≡ hand_over world m (record state {
            keyring = world.discover input.to state.keyring;
            archived = archived;
          }))

  abbrev pub IsDelivery : SendState → Result → Type 0
  IsDelivery state result = IsRefusal state result ⊎ IsHold state result ⊎ IsSend state result

  send_pgp-IsDelivery :
      (armored : List Text) (answer : Built) (state : SendState)
      → world.build_encrypted (request_for sender me input armored 1) ≡ answer
      → IsAddressed (world.discover input.to state.keyring) armored 1
      → IsDelivery state
          (send_pgp loc world sender me answer (looked_up loc world sender me input state))
  unfolding send_pgp
  send_pgp-IsDelivery armored (not_built why) state h a = inl (_, _, refl, inr refl)
  send_pgp-IsDelivery armored (built message) state h a =
      elim (Bool-cases (world.is_pgp_mime message)) [
        | inl e ↦ inr (inr (state.archived, armored, 1, message, (h, inl e), a, simp e))
        | inr n ↦ simp n (inl (_, _, refl, inr refl))
      ]

  build_pgp-IsDelivery :
      (armored : Option (List Text)) (state : SendState)
      → any is_status_changed (recipients_of loc world sender me input state) ≡ false
      → any is_status_missing (recipients_of loc world sender me input state) ≡ false
      → with_own loc world sender me (armored_keys (recipients_of loc world sender me input state))
        ≡ armored
      → IsDelivery state
          (build_pgp loc world sender me input armored (looked_up loc world sender me input state))
  build_pgp-IsDelivery none state n k e = inl (_, _, refl, inr refl)
  build_pgp-IsDelivery (some armored) state n k e =
      send_pgp-IsDelivery armored (world.build_encrypted (request_for sender me input armored 1))
        state refl (inr (n, k, e))

  archive_then_send-IsDelivery :
      (wrap : Bool) (armored : List Text) (message : Text) (error : Option Text) (state : SendState)
      → IsSealedUnder armored 2 message
      → (level_or_default input.level == 2) ≡ true
      → IsDelivery state (
          archive_then_send loc world sender me input wrap message error
            (looked_up loc world sender me input state))
  archive_then_send-IsDelivery wrap armored message (some why) state h two =
      inl (_, _, refl, inr refl)
  archive_then_send-IsDelivery wrap armored message none state h two =
      inr (inr (_, armored, 2, message, h, inl two, refl))

  send_qkd-IsDelivery :
      (wrap : Bool) (armored : List Text) (answer : Built) (state : SendState)
      → world.build_encrypted (request_for sender me input armored 2) ≡ answer
      → (level_or_default input.level == 2) ≡ true
      → IsDelivery state (
          send_qkd loc world sender me input wrap answer
            (looked_up loc world sender me input state))
  unfolding send_qkd
  send_qkd-IsDelivery wrap armored (not_built why) state h two = inl (_, _, refl, inr refl)
  send_qkd-IsDelivery true armored (built message) state h two =
      elim (Bool-cases (world.is_pgp_mime message)) [
        | inl e ↦ simp e (
            archive_then_send-IsDelivery true armored message (world.archive_error message) state
              (h, inl e) two)
        | inr n ↦ simp n (inl (_, _, refl, inr refl))
      ]
  send_qkd-IsDelivery false armored (built message) state h two =
      elim (Bool-cases (world.is_qkd_message message)) [
        | inl e ↦ simp e (
            archive_then_send-IsDelivery false armored message (world.archive_error message) state
              (h, inr e) two)
        | inr n ↦ simp n (inl (_, _, refl, inr refl))
      ]

  build_qkd-IsDelivery :
      (wrap : Bool) (armored : Option (List Text)) (state : SendState)
      → (level_or_default input.level == 2) ≡ true
      → IsDelivery state (
          build_qkd loc world sender me input wrap armored
            (looked_up loc world sender me input state))
  build_qkd-IsDelivery wrap none state two = inl (_, _, refl, inr refl)
  build_qkd-IsDelivery wrap (some armored) state two =
      send_qkd-IsDelivery wrap armored
        (world.build_encrypted (request_for sender me input armored 2)) state refl two

  deliver_qkd-IsDelivery :
      (state : SendState)
      → (level_or_default input.level == 2) ≡ true
      → IsDelivery state (deliver_qkd loc world sender me input state)
  unfolding deliver_qkd
  deliver_qkd-IsDelivery state two = elim (Bool-cases (is_nil input.to)) [
    | inl e ↦ simp e (inl (_, _, refl, inl refl))
    | inr n ↦ simp n (
        build_qkd-IsDelivery (wraps loc world sender me input state)
          (if wraps loc world sender me input state
            then with_own loc world sender me
                (armored_keys (recipients_of loc world sender me input state))
            else some [])
          state two)
  ]

  build_pgp-deliver_to :
      (state : SendState)
      → any is_status_changed (recipients_of loc world sender me input state) ≡ false
      → any is_status_missing (recipients_of loc world sender me input state) ≡ false
      → (can_send_encrypted world).allowed ≡ true
      → build_pgp loc world sender me input
          (with_own loc world sender me
            (armored_keys (recipients_of loc world sender me input state)))
          (looked_up loc world sender me input state)
        ≡ deliver_to loc world sender me input
            (recipients_of loc world sender me input state)
            (looked_up loc world sender me input state)
  unfolding deliver_to
  build_pgp-deliver_to state n k e = simp (n, k, e)

  deliver_to-IsDelivery :
      (state : SendState)
      → IsDelivery state (
          deliver_to loc world sender me input
            (recipients_of loc world sender me input state)
            (looked_up loc world sender me input state))
  unfolding deliver_to
  deliver_to-IsDelivery state =
      let recipients = recipients_of loc world sender me input state in
      elim (Bool-cases (any is_status_changed recipients)) [
        | inl e ↦ simp e (inl (_, _, refl, inr refl))
        | inr n ↦ elim (Bool-cases (any is_status_missing recipients)) [
          | inl e ↦ inr (inl (simp (n, e), n, e))
          | inr k ↦ elim (Bool-cases (can_send_encrypted world).allowed) [
            | inl e ↦ subst (IsDelivery state) (build_pgp-deliver_to state n k e) (
                build_pgp-IsDelivery (with_own loc world sender me (armored_keys recipients)) state
                  n k refl)
            | inr d ↦ simp (n, k, d) (inl (_, _, refl, inr refl))
          ]
        ]
      ]

  deliver_qkd-deliver_as :
      (state : SendState)
      → is_retired_level input.level ≡ false
      → (level_or_default input.level == 2) ≡ true
      → deliver_qkd loc world sender me input state ≡ deliver_as loc world sender me input state
  unfolding deliver_as
  deliver_qkd-deliver_as state n e = simp (n, e)

  deliver_to-deliver_as :
      (state : SendState)
      → is_retired_level input.level ≡ false
      → (level_or_default input.level == 2) ≡ false
      → deliver_to loc world sender me input
          (recipients_of loc world sender me input state)
          (looked_up loc world sender me input state)
        ≡ deliver_as loc world sender me input state
  unfolding deliver_as
  deliver_to-deliver_as state n k = simp (n, k)

  pub deliver_as-IsDelivery :
      (state : SendState) → IsDelivery state (deliver_as loc world sender me input state)
  unfolding deliver_as
  deliver_as-IsDelivery state = elim (Bool-cases (is_retired_level input.level)) [
    | inl e ↦ simp e (inl (_, _, refl, inl refl))
    | inr n ↦ elim (Bool-cases (level_or_default input.level == 2)) [
      | inl e ↦
          subst (IsDelivery state) (deliver_qkd-deliver_as state n e)
            (deliver_qkd-IsDelivery state e)
      | inr k ↦
          subst (IsDelivery state) (deliver_to-deliver_as state n k) (deliver_to-IsDelivery state)
    ]
  ]

-- The ways a call ends where there is a session and an identity, or it is refused.
abbrev pub IsEnd :
    Locale → World → SendInput → SendState → Option Text → Option Identity → Result → Type 0
IsEnd loc world input state session identity result =
    (result ≡ give (refused not_connected) state)
    ⊎ ((sender : Text) × (me : Identity) × (session ≡ some sender)
        × (identity ≡ some me)
        × IsDelivery loc world sender me input state result)

deliver_for-IsEnd :
    (loc : Locale) (world : World) (input : SendInput) (state : SendState) (connected : Bool)
    (session : Option Text) (identity : Option Identity)
    → IsEnd loc world input state session identity
        (deliver_for loc world connected session identity input state)
deliver_for-IsEnd loc world input state true (some sender) (some me) =
    inr (sender, me, refl, refl, deliver_as-IsDelivery loc world sender me input state)
deliver_for-IsEnd loc world input state true (some sender) none = inl refl
deliver_for-IsEnd loc world input state true none identity = inl refl
deliver_for-IsEnd loc world input state false session identity = inl refl

-- The cases of `deliver`, by the calls it makes.
pub deliver-IsEnd :
    (loc : Locale) (world : World) (input : SendInput) (state : SendState)
    → IsEnd loc world input state state.session state.identity (deliver loc world input state)
unfolding deliver
deliver-IsEnd loc world input state =
    deliver_for-IsEnd loc world input state state.connected state.session state.identity
