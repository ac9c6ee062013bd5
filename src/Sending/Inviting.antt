-- ===== src/Sending/Inviting.antt =====
-- No address is invited twice within a week (app/src/store/inviteStore.ts, and sendInvites of
-- app/src/state/send.ts).
use crypt_mail.Prelude.{
  ℕ, ◌+◌, ◌<◌, ◌≡◌, refl, sym, ap, ◌∙◌, subst, ◌≢◌, ◌⊎◌, inl, inr, true, false, none, some, List,
  [], ◌∷◌, arith, Bool-cases, All, All-In, All-of, Text, text_eq, text_eq_refl, lookup-insert,
  Locale, canonical,
}
use crypt_mail.Sending.Types.{World, SendState, is_accepted}
use crypt_mail.Sending.Invites.{
  InviteLog, InviteRun, new_run, invite_window_ms, is_due_after, is_over, should_invite,
  record_invite, invite, invite_one, invite_each, store_run, send_invites,
}

-- What a clock writes as a time stamp is not empty and reads back (ECMA-262: toISOString, Date.parse).
pub record IsClock (world : World) : Type 0 where
  pub reads : (at : ℕ) → world.parse_date (world.iso_of at) ≡ some at
  pub writes : (at : ℕ) → world.iso_of at ≢ []

-- The same services, at another moment.
abbrev pub at_moment : World → ℕ → World
at_moment world ms = record world { now_ms = ms }

module _ (loc : Locale) (world : World) (clock : IsClock world) (later : ℕ)
    (soon : later < world.now_ms + invite_window_ms) where
  abbrev IsFresh : InviteLog → Text → Type 0
  IsFresh log email = should_invite loc world log email later ≡ false

  is_due_after-stamped :
      (stamp : Text)
      → stamp ≢ []
      → world.parse_date stamp ≡ some world.now_ms
      → is_due_after loc world (some stamp) later ≡ false
  is_due_after-stamped [] n p = absurd (n refl)
  is_due_after-stamped (c ∷ stamp) n p =
      ap (λ at. is_over loc world at later) p ∙ ground (arith, soon)

  -- Recording an invite makes its own address fresh, and leaves the others as they were.
  record_invite-own :
      (log : InviteLog) (email other : Text)
      → text_eq (canonical loc other) (canonical loc email) ≡ true
      → IsFresh (record_invite loc world log other world.now_ms) email
  unfolding should_invite record_invite
  record_invite-own log email other e =
      ap (λ o. is_due_after loc world o later)
        (lookup-insert (canonical loc other) (canonical loc email) (world.iso_of world.now_ms) log)
      ∙ simp e (
          is_due_after-stamped (world.iso_of world.now_ms) (clock.writes world.now_ms)
            (clock.reads world.now_ms))

  record_invite-other :
      (log : InviteLog) (email other : Text) (at : ℕ)
      → text_eq (canonical loc other) (canonical loc email) ≡ false
      → should_invite loc world (record_invite loc world log other world.now_ms) email at
        ≡ should_invite loc world log email at
  unfolding should_invite record_invite
  record_invite-other log email other at n =
      ap (λ o. is_due_after loc world o at)
        (lookup-insert (canonical loc other) (canonical loc email) (world.iso_of world.now_ms) log)
      ∙ simp n

  -- An address is due at once, or not due at the later moment either.
  abbrev IsReady : InviteLog → Text → Type 0
  IsReady log email = (should_invite loc world log email world.now_ms ≡ true) ⊎ IsFresh log email

  record_invite-IsReady :
      (log : InviteLog) (email other : Text)
      → IsReady log email
      → IsReady (record_invite loc world log other world.now_ms) email
  record_invite-IsReady log email other r =
      elim (Bool-cases (text_eq (canonical loc other) (canonical loc email))) [
        | inl e ↦ inr (record_invite-own log email other e)
        | inr n ↦ elim r [
          | inl due ↦ inl (record_invite-other log email other world.now_ms n ∙ due)
          | inr fresh ↦ inr (record_invite-other log email other later n ∙ fresh)
        ]
      ]

  record_invite-IsFresh :
      (log : InviteLog) (email other : Text)
      → IsFresh log email
      → IsFresh (record_invite loc world log other world.now_ms) email
  record_invite-IsFresh log email other fresh =
      elim (Bool-cases (text_eq (canonical loc other) (canonical loc email))) [
        | inl e ↦ record_invite-own log email other e
        | inr n ↦ record_invite-other log email other later n ∙ fresh
      ]

  module _ (sender armored : Text)
      (accepted : (earlier : List Text) (m : Text) → world.accept earlier m ≡ none) where
    invite_one-log :
        (email : Text) (gathered : InviteRun)
        → ((invite_one loc world sender armored email gathered).log
            ≡ record_invite loc world gathered.log email world.now_ms)
          × ((invite_one loc world sender armored email gathered).recorded ≡ true)
    unfolding invite_one
    invite_one-log email gathered =
        let e = ap is_accepted (accepted gathered.handed (invite loc world sender armored email)) in
        (simp e, simp e)

    invite_each-due :
        (email : Text) (emails : List Text) (gathered : InviteRun)
        → should_invite loc world gathered.log email world.now_ms ≡ true
        → invite_each loc world sender armored emails
            (invite_one loc world sender armored email gathered)
          ≡ invite_each loc world sender armored (email ∷ emails) gathered
    unfolding invite_each
    invite_each-due email emails gathered e = simp e

    invite_each-not_due :
        (email : Text) (emails : List Text) (gathered : InviteRun)
        → should_invite loc world gathered.log email world.now_ms ≡ false
        → invite_each loc world sender armored emails gathered
          ≡ invite_each loc world sender armored (email ∷ emails) gathered
    unfolding invite_each
    invite_each-not_due email emails gathered n = simp n

    -- A property of the log that every record keeps holds after the loop.
    invite_each-keeps :
        (P : InviteLog → Type 0) (emails : List Text) (gathered : InviteRun)
        → ((log : InviteLog) (other : Text)
            → P log
            → P (record_invite loc world log other world.now_ms))
        → P gathered.log
        → P (invite_each loc world sender armored emails gathered).log
    unfolding invite_each
    invite_each-keeps P [] gathered f h = h
    invite_each-keeps P (email ∷ emails) gathered f h =
        elim (Bool-cases (should_invite loc world gathered.log email world.now_ms)) [
          | inl e ↦ simp e (
              invite_each-keeps P emails (invite_one loc world sender armored email gathered) f
                (subst P (sym (invite_one-log email gathered).0) (f gathered.log email h)))
          | inr n ↦ simp n (invite_each-keeps P emails gathered f h)
        ]

    invite_each-IsFresh :
        (emails : List Text) (gathered : InviteRun)
        → All (IsReady gathered.log) emails
        → All (IsFresh (invite_each loc world sender armored emails gathered).log) emails
    unfolding invite_each
    invite_each-IsFresh [] gathered r = tt
    invite_each-IsFresh (email ∷ emails) gathered (r, rs) =
        elim (Bool-cases (should_invite loc world gathered.log email world.now_ms)) [
          | inl e ↦
              let next = invite_one loc world sender armored email gathered in
              let recorded = (invite_one-log email gathered).0 in
              subst (λ (run : InviteRun). All (IsFresh run.log) (email ∷ emails))
                (invite_each-due email emails gathered e)
                (
                  invite_each-keeps (λ log. IsFresh log email) emails next
                      (λ log other h. record_invite-IsFresh log email other h)
                      (subst (λ log. IsFresh log email) (sym recorded)
                        (record_invite-own gathered.log email email
                          (text_eq_refl (canonical loc email)))),
                  invite_each-IsFresh emails next (
                      subst (λ log. All (IsReady log) emails) (sym recorded)
                        (All-IsReady gathered.log email emails rs)),
                )
          | inr n ↦
              subst (λ (run : InviteRun). All (IsFresh run.log) (email ∷ emails))
                (invite_each-not_due email emails gathered n)
                (
                  invite_each-keeps (λ log. IsFresh log email) emails gathered
                      (λ log other h. record_invite-IsFresh log email other h)
                      (fresh_when_not_due gathered.log email n r),
                  invite_each-IsFresh emails gathered rs,
                )
        ]
      where
        fresh_when_not_due :
            (log : InviteLog) (email : Text)
            → should_invite loc world log email world.now_ms ≡ false
            → IsReady log email
            → IsFresh log email
        fresh_when_not_due log email n (inl due) = absurd (cc (sym due ∙ n))
        fresh_when_not_due log email n (inr fresh) = fresh

        All-IsReady :
            (log : InviteLog) (other : Text) (emails : List Text)
            → All (IsReady log) emails
            → All (IsReady (record_invite loc world log other world.now_ms)) emails
        All-IsReady log other [] r = tt
        All-IsReady log other (email ∷ emails) (r, rs) =
            (record_invite-IsReady log email other r, All-IsReady log other emails rs)

    -- The log after the loop is the state's log afterwards, since an unrecorded one is the old one.
    invite_each-log :
        (emails : List Text) (gathered : InviteRun) (start : InviteLog)
        → (gathered.recorded ≡ true) ⊎ (gathered.log ≡ start)
        → (let after = invite_each loc world sender armored emails gathered in
            (after.recorded ≡ true) ⊎ (after.log ≡ start))
    unfolding invite_each
    invite_each-log [] gathered start h = h
    invite_each-log (email ∷ emails) gathered start h =
        elim (Bool-cases (should_invite loc world gathered.log email world.now_ms)) [
          | inl e ↦ simp e (
              invite_each-log emails (invite_one loc world sender armored email gathered) start
                (inl (invite_one-log email gathered).1))
          | inr n ↦ simp n (invite_each-log emails gathered start h)
        ]

    store_run-invites :
        (gathered : InviteRun) (state : SendState)
        → (gathered.recorded ≡ true) ⊎ (gathered.log ≡ state.invites)
        → (store_run loc world sender armored gathered state).invites ≡ gathered.log
    unfolding store_run
    store_run-invites gathered state (inl e) = simp e
    store_run-invites gathered state (inr same) = elim (Bool-cases gathered.recorded) [
      | inl e ↦ simp e
      | inr n ↦ simp n (sym same)
    ]

    -- Nobody fresh is invited.
    invite_each-quiet :
        (emails : List Text) (gathered : InviteRun)
        → All (IsFresh gathered.log) emails
        → invite_each loc (at_moment world later) sender armored emails gathered ≡ gathered
    unfolding invite_each should_invite
    invite_each-quiet [] gathered f = refl
    invite_each-quiet (email ∷ emails) gathered (f, fs) =
        simp f (invite_each-quiet emails gathered fs)

    send_invites-handed :
        (at : World) (emails : List Text) (state : SendState)
        → (send_invites loc at sender armored emails state).handed
          ≡ (invite_each loc at sender armored emails (new_run state)).handed
    unfolding send_invites store_run
    send_invites-handed at emails state =
        elim (Bool-cases (invite_each loc at sender armored emails (new_run state)).recorded) [
          | inl e ↦ simp e
          | inr n ↦ simp n
        ]

    send_invites-IsFresh :
        (emails : List Text) (state : SendState)
        → All (IsReady state.invites) emails
        → All (IsFresh (send_invites loc world sender armored emails state).invites) emails
    unfolding send_invites
    send_invites-IsFresh emails state r =
        subst (λ log. All (IsFresh log) emails)
          (sym (
            store_run-invites (invite_each loc world sender armored emails (new_run state)) state
              (invite_each-log emails (new_run state) state.invites (inr refl))))
          (invite_each-IsFresh emails (new_run state) r)

-- People who were all due an invite and were sent one are not sent another within a week: where the
-- provider took the invites, asking again for the same people at any moment earlier than seven days after
-- hands nothing to the provider. The clock's time stamps read back.
pub send_invites-once :
    (loc : Locale) (world : World) (later : ℕ) (sender armored : Text) (emails : List Text)
    (state : SendState)
    → IsClock world
    → later < world.now_ms + invite_window_ms
    → ((earlier : List Text) (m : Text) → world.accept earlier m ≡ none)
    → All (λ email. should_invite loc world state.invites email world.now_ms ≡ true) emails
    → (let after = send_invites loc world sender armored emails state in
        (send_invites loc (at_moment world later) sender armored emails after).handed
        ≡ after.handed)
send_invites-once loc world later sender armored emails state clock soon accepted due =
    let after = send_invites loc world sender armored emails state in
    send_invites-handed loc world clock later soon sender armored accepted (at_moment world later)
      emails after
    ∙ ap (λ (run : InviteRun). run.handed)
        (invite_each-quiet loc world clock later soon sender armored accepted emails (new_run after)
          (send_invites-IsFresh loc world clock later soon sender armored accepted emails state (
            All-of (IsReady loc world clock later soon state.invites) emails (λ email i. inl (
              All-In (λ e. should_invite loc world state.invites e world.now_ms ≡ true) emails due
                email i)))))
