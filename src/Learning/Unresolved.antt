-- ===== src/Learning/Unresolved.antt =====
-- Which addresses a round of discovery reports as unresolved.
use crypt_mail.Prelude.{
  ◌≡◌, refl, sym, subst, ◌⊎◌, inl, inr, Bool, true, false, Option, none, some, List, [], ◌∷◌, ◌++◌,
  Bool-cases, In, In-append, Text, Locale,
}
use crypt_mail.Mail.{MailSummary}
use crypt_mail.Keyring.{Keyring, PublicKeyInfo}
use crypt_mail.Discovery.{
  LookupEnd, FailCode, DirectorySource, found, nothing_published, lookup_failed,
}
use crypt_mail.Learning.{
  Learner, Harvest, Round, has_key, harvest_box, harvest_boxes, harvest_from_sender, claims,
  take_served, after_lookup, learn_one, learn_each, unknown_of, discover,
}

module _ (loc : Locale) (learner : Learner) where
  -- Nothing was established about the address.
  abbrev pub IsUnanswered : Text → Type 0
  IsUnanswered email =
      ((code : FailCode) × (learner.look_up email ≡ lookup_failed code))
      ⊎ (learner.look_up email ≡ nothing_published) × In none (learner.searches email)
      ⊎ ((armored : Text) × (source : DirectorySource) × (learner.look_up email
            ≡ found armored source)
          × (learner.import_public_key armored ≡ none))

  harvest_boxes-failed :
      (email : Text) (boxes : List (Option (List MailSummary))) (ring : Keyring) (failed : Bool)
      → (harvest_boxes loc learner email boxes ring failed).failed ≡ true
      → (failed ≡ true) ⊎ In none boxes
  unfolding harvest_boxes
  harvest_boxes-failed email [] ring failed h = inl h
  harvest_boxes-failed email (none ∷ boxes) ring failed h = inr (inl refl)
  harvest_boxes-failed email (some messages ∷ boxes) ring failed h =
      let next = harvest_box loc learner email messages ring in
      elim (Bool-cases (has_key loc learner next email)) [
        | inl e ↦ absurd (cc (rw e at h))
        | inr n ↦ elim (harvest_boxes-failed email boxes next failed (rw n at h)) [
          | inl before ↦ inl before
          | inr i ↦ inr (inr i)
        ]
      ]

  -- What a step adds to the unresolved addresses.
  abbrev Reports : Text → List Text → List Text → Type 0
  Reports email before after =
      (e : Text) → In e after → In e before ⊎ (e ≡ email) × IsUnanswered email

  Reports-last :
      (email : Text) (before : List Text)
      → IsUnanswered email
      → Reports email before (before ++ email ∷ [])
  Reports-last email before u e i = elim (In-append e before (email ∷ []) i) [
    | inl old ↦ inl old
    | inr (inl same) ↦ inr (same, u)
    | inr (inr never) ↦ absurd never
  ]

  take_served-Reports :
      (email armored : Text) (source : DirectorySource) (info : Option PublicKeyInfo)
      (ring : Keyring) (unresolved : List Text)
      → learner.look_up email ≡ found armored source
      → learner.import_public_key armored ≡ info
      → Reports email unresolved
          (take_served loc learner email armored info ring unresolved).unresolved
  take_served-Reports email armored source none ring unresolved l p =
      Reports-last email unresolved (inr (inr (armored, source, l, p)))
  take_served-Reports email armored source (some info) ring unresolved l p =
      elim (Bool-cases (claims loc learner info armored email)) [
        | inl e ↦ rw e (λ x i. inl i)
        | inr n ↦ rw n (λ x i. inl i)
      ]

  after_lookup-Reports :
      (email : Text) (end : LookupEnd) (mail : Harvest) (unresolved : List Text)
      → learner.look_up email ≡ end
      → (mail.failed ≡ true → In none (learner.searches email))
      → Reports email unresolved (after_lookup loc learner email end mail unresolved).unresolved
  after_lookup-Reports email (found armored source) mail unresolved l f =
      take_served-Reports email armored source (learner.import_public_key armored) mail.keyring
        unresolved l refl
  after_lookup-Reports email nothing_published mail unresolved l f = elim (Bool-cases mail.failed) [
    | inl e ↦ rw e (Reports-last email unresolved (inr (inl (l, f e))))
    | inr n ↦ rw n (λ x i. inl i)
  ]
  after_lookup-Reports email (lookup_failed code) mail unresolved l f =
      Reports-last email unresolved (inl (code, l))

  learn_one-Reports :
      (email : Text) (gathered : Round)
      → Reports email gathered.unresolved (learn_one loc learner email gathered).unresolved
  unfolding learn_one harvest_from_sender
  learn_one-Reports email gathered =
      let mail = harvest_from_sender loc learner gathered.keyring email in
      elim (Bool-cases (has_key loc learner mail.keyring email)) [
        | inl e ↦ rw e (λ x i. inl i)
        | inr n ↦ rw n (
            after_lookup-Reports email (learner.look_up email) mail gathered.unresolved refl (λ f.
              elim (harvest_boxes-failed email (learner.searches email) gathered.keyring false f) [
                | inl never ↦ absurd (cc never)
                | inr i ↦ i
              ]))
      ]

  learn_each-Reports :
      (emails : List Text) (gathered : Round) (e : Text)
      → In e (learn_each loc learner emails gathered).unresolved
      → In e gathered.unresolved ⊎ In e emails × IsUnanswered e
  unfolding learn_each
  learn_each-Reports [] gathered e i = inl i
  learn_each-Reports (email ∷ emails) gathered e i =
      elim (learn_each-Reports emails (learn_one loc learner email gathered) e i) [
        | inr (j, u) ↦ inr (inr j, u)
        | inl before ↦ elim (learn_one-Reports email gathered e before) [
          | inl old ↦ inl old
          | inr (same, u) ↦ inr (inl same, subst IsUnanswered (sym same) u)
        ]
      ]

-- An address that discovery reports as unresolved was one of the unknown ones it asked about, and nothing
-- was established about it: its lookup failed, or nothing was published while a mailbox could not be
-- searched for its mail, or the key that the directory served could not be imported. So a definite
-- answer is never reported as a failure.
pub discover-IsUnanswered :
    (loc : Locale) (learner : Learner) (self : Option Text) (ring : Keyring) (emails : List Text)
    (e : Text)
    → In e (discover loc learner self ring emails).unresolved
    → In e (unknown_of loc learner self ring emails) × IsUnanswered loc learner e
unfolding discover
discover-IsUnanswered loc learner self ring emails e i =
    elim (learn_each-Reports loc learner (unknown_of loc learner self ring emails)
      (record { keyring = ring; unresolved = [] }) e i) [ inl never ↦ absurd never | inr r ↦ r ]
