-- ===== src/Sending/Learned.antt =====
-- The send path over the search for keys itself (app/src/state/send.ts and app/src/state/contacts.ts).
use crypt_mail.Prelude.{
  ◌≡◌, refl, sym, ap, ◌∙◌, subst, ◌⊎◌, inl, inr, Option, none, some, List, [], ◌∷◌, ◌++◌,
  Bool-cases, Text, Locale,
}
use crypt_mail.Recipients.{Identity}
use crypt_mail.Learning.{Learner, discover}
use crypt_mail.Learning.Trusting.{VerifiesNothing, discover-VerifiesNothing}
use crypt_mail.Sending.{hold_and_invite, deliver}
use crypt_mail.Sending.Parts.{Result, hold_back, after_handing, hand_over}
use crypt_mail.Sending.Types.{SendInput, World, SendState, Rejection}
use crypt_mail.Sending.Invites.{new_run, invite_each, store_run, send_invites}
use crypt_mail.Sending.Outcomes.{IsDelivery, deliver-IsEnd}

-- The services, where discovery is what contacts.discover does.
abbrev pub with_discovery : Locale → Learner → Option Text → World → World
with_discovery loc learner self world = record world {
  discover = λ emails ring. (discover loc learner self ring emails).keyring;
}

hand_over-keyring :
    (world : World) (m : Text) (state : SendState)
    → (hand_over world m state).state.keyring ≡ state.keyring
unfolding hand_over
hand_over-keyring world m state = handed (world.accept state.handed m)
  where
    handed :
        (answer : Option Rejection)
        → (after_handing answer (record state { handed = state.handed ++ m ∷ [] })).state.keyring
          ≡ state.keyring
    handed none = refl
    handed (some rejection) = refl

send_invites-keyring :
    (loc : Locale) (world : World) (sender armored : Text) (emails : List Text) (state : SendState)
    → (send_invites loc world sender armored emails state).keyring ≡ state.keyring
unfolding send_invites store_run
send_invites-keyring loc world sender armored emails state =
    elim (Bool-cases (invite_each loc world sender armored emails (new_run state)).recorded) [
      | inl e ↦ simp e refl
      | inr n ↦ simp n refl
    ]

-- The keyring after a delivery is the one before it, or what the search for keys left of that.
abbrev IsSearched : World → SendInput → SendState → Result → Type 0
IsSearched world input state result =
    (result.state.keyring ≡ state.keyring)
    ⊎ (result.state.keyring ≡ world.discover input.to state.keyring)

IsDelivery-IsSearched :
    (loc : Locale) (world : World) (sender : Text) (me : Identity) (input : SendInput)
    (state : SendState) (result : Result)
    → IsDelivery loc world sender me input state result
    → IsSearched world input state result
unfolding hold_and_invite hold_back
IsDelivery-IsSearched loc world sender me input state result (inl (refusal, keyring, e, found)) =
    elim found [
      | inl f ↦ inl (ap (λ (r : Result). r.state.keyring) e ∙ f)
      | inr f ↦ inr (ap (λ (r : Result). r.state.keyring) e ∙ f)
    ]
IsDelivery-IsSearched loc world sender me input state result (inr (inl (e, _, _))) =
    inr (ap (λ (r : Result). r.state.keyring) e ∙ send_invites-keyring loc world sender _ _ _)
IsDelivery-IsSearched loc world sender me input state result
      (inr (inr (archived, armored, level, m, sealed, addressed, e))) =
    inr (ap (λ (r : Result). r.state.keyring) e ∙ hand_over-keyring world m _)

deliver-IsSearched :
    (loc : Locale) (world : World) (input : SendInput) (state : SendState)
    → IsSearched world input state (deliver loc world input state)
deliver-IsSearched loc world input state = elim (deliver-IsEnd loc world input state) [
  | inl e ↦ inl (ap (λ (r : Result). r.state.keyring) e)
  | inr (sender, me, s, i, d) ↦
      IsDelivery-IsSearched loc world sender me input state (deliver loc world input state) d
]

-- Sending verifies nobody, with the search for keys that the program has: whether a message is sent, held or
-- refused, an entry of the keyring is `verified` afterwards only where it was verified before, under the
-- same fingerprint, whatever mail the search found, whatever the directory served and whatever the keys
-- claim.
pub deliver-VerifiesNothing :
    (loc : Locale) (learner : Learner) (self : Option Text) (world : World) (input : SendInput)
    (state : SendState)
    → VerifiesNothing state.keyring
        (deliver loc (with_discovery loc learner self world) input state).state.keyring
deliver-VerifiesNothing loc learner self world input state =
    elim (deliver-IsSearched loc (with_discovery loc learner self world) input state) [
      | inl e ↦ subst (VerifiesNothing state.keyring) (sym e) (λ email c l v. (c, l, v, refl))
      | inr e ↦
          subst (VerifiesNothing state.keyring) (sym e)
            (discover-VerifiesNothing loc learner self state.keyring input.to)
    ]
