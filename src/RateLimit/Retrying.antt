-- ===== src/RateLimit/Retrying.antt =====
-- The loop of retries ends, and with what.
use crypt_mail.Prelude.{
  ℕ, zero, suc, ◌+◌, ◌≤◌, ◌<◌, ◌≡◌, refl, sym, ap, ◌∙◌, subst, ◌⊎◌, inl, inr, Bool, true, false,
  Option, some, List, [], ◌∷◌, ◌++◌, arith, leb, leb→le, Bool-cases, length, append_assoc,
  append_nil,
}
use crypt_mail.RateLimit.{
  Attempt, returned, thrown, is_rate_limited, delay_at, Run, after_attempt, retry_from,
  with_rate_limit_retry,
}

abbrev pub is_limited : {A : Type 0} → Attempt A → Bool
is_limited (returned a) = false
is_limited (thrown e) = is_rate_limited e

-- The waits of some attempts in a row.
abbrev pub delays_between : List ℕ → ℕ → ℕ → List ℕ
delays_between delays first zero = []
delays_between delays first (suc count) =
    delay_at delays first ∷ delays_between delays (suc first) count

-- How the loop ends from an attempt on: after some retries, each of an attempt that was rate limited and
-- each after its wait, with an answer that is not rate limited, or with the last attempt there is.
pub record IsRetried (A : Type 0) (work : ℕ → Attempt A) (delays : List ℕ) (first : ℕ)
    (waits : List ℕ) (run : Run A) : Type 0 where
  pub count : ℕ
  pub retries : run.retries ≡ first + count
  pub answers : run.answer ≡ work run.retries
  pub bounded : run.retries ≤ length delays
  pub retried : (i : ℕ) → first ≤ i → i < run.retries → is_limited (work i) ≡ true
  pub settled : (is_limited run.answer ≡ false) ⊎ (run.retries ≡ length delays)
  pub waited : run.slept ≡ waits ++ delays_between delays first count

module _ {A : Type 0} (work : ℕ → Attempt A) (delays : List ℕ) where
  IsEnding : ℕ → List ℕ → Option (Run A) → Type 0
  IsEnding first waits result =
      (run : Run A) × (result ≡ some run) × IsRetried A work delays first waits run

  ends_here :
      (first : ℕ) (waits : List ℕ) (answer : Attempt A)
      → work first ≡ answer
      → first ≤ length delays
      → (is_limited answer ≡ false) ⊎ (first ≡ length delays)
      → IsEnding first waits (some (record { answer = answer; retries = first; slept = waits }))
  unfolding IsEnding
  ends_here first waits answer e b s = (
    record { answer = answer; retries = first; slept = waits },
    refl,
    record {
      count = 0;
      retries = omega arith;
      answers = sym e;
      bounded = b;
      retried = λ i l g. absurd (omega arith);
      settled = s;
      waited = sym (append_nil waits);
    },
  )

  ends_later :
      (first : ℕ) (waits : List ℕ) (rest : Option (Run A))
      → is_limited (work first) ≡ true
      → IsEnding (suc first) (waits ++ delay_at delays first ∷ []) rest
      → IsEnding first waits rest
  unfolding IsEnding
  ends_later first waits rest l (run, e, r) = (
    run,
    e,
    record {
      count = suc r.count;
      retries = omega (arith, r.retries);
      answers = r.answers;
      bounded = r.bounded;
      retried = λ i a b. elim (Bool-cases (leb (suc first) i)) [
        | inl e ↦ r.retried i (leb→le (suc first) i e) b
        | inr n ↦ subst (λ j. is_limited (work j) ≡ true) (ground (arith, n, a)) l
      ];
      settled = r.settled;
      waited =
          r.waited
          ∙ append_assoc waits (delay_at delays first ∷ [])
              (delays_between delays (suc first) r.count);
    },
  )

  after_attempt-IsEnding :
      (first : ℕ) (waits : List ℕ) (answer : Attempt A) (rest : Option (Run A))
      → work first ≡ answer
      → first ≤ length delays
      → (first < length delays → IsEnding (suc first) (waits ++ delay_at delays first ∷ []) rest)
      → IsEnding first waits (after_attempt work delays answer first waits rest)
  after_attempt-IsEnding first waits (returned a) rest e b next =
      ends_here first waits (returned a) e b (inl refl)
  after_attempt-IsEnding first waits (thrown t) rest e b next =
      elim (Bool-cases (is_rate_limited t)) [
        | inr n ↦ simp n (ends_here first waits (thrown t) e b (inl n))
        | inl l ↦ elim (Bool-cases (leb (length delays) first)) [
          | inl end ↦
              simp (l, end) (ends_here first waits (thrown t) e b (inr (ground (arith, end, b))))
          | inr more ↦
              simp (l, more)
                (ends_later first waits rest (ap is_limited e ∙ l) (next (ground (arith, more))))
        ]
      ]

  retry_from-IsEnding :
      (fuel first : ℕ) (waits : List ℕ)
      → first ≤ length delays
      → length delays < fuel + first
      → IsEnding first waits (retry_from work delays fuel first waits)
  unfolding retry_from
  retry_from-IsEnding zero first waits b f = absurd (omega arith)
  retry_from-IsEnding (suc fuel) first waits b f =
      after_attempt-IsEnding first waits (work first)
        (retry_from work delays fuel (suc first) (waits ++ delay_at delays first ∷ [])) refl b
        (λ l.
          retry_from-IsEnding fuel (suc first) (waits ++ delay_at delays first ∷ []) (omega arith)
            (omega arith))

-- The loop of retries always ends, whatever the attempts answer, after at most as many retries as there are
-- delays. It ends with the answer of its last attempt; every attempt before that was rate limited and was
-- followed by its own delay; and the answer is not rate limited, unless no delay was left.
pub with_rate_limit_retry-IsRetried :
    {A : Type 0} (work : ℕ → Attempt A) (delays : List ℕ)
    → (run : Run A) × (with_rate_limit_retry work delays ≡ some run)
      × IsRetried A work delays 0 [] run
unfolding with_rate_limit_retry IsEnding
with_rate_limit_retry-IsRetried work delays =
    retry_from-IsEnding work delays (suc (length delays)) 0 [] (omega arith) (omega arith)
