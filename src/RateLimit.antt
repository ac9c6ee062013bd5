-- ===== src/RateLimit.antt =====
-- Waiting out a provider's rate limit (app/src/mail/rateLimit.ts). The work is given by the answer to each
-- attempt; a wait is its length in milliseconds.
pub mod Retrying
mod Tests
use crypt_mail.Prelude.{
  ℕ, zero, suc, ◌+◌, Bool, false, ◌&&◌, ◌||◌, not, Option, none, some, List, [], ◌∷◌, ◌++◌, map,
  leb, ◌==◌, if◌then◌else◌, length, Text, codes, includes,
}

-- What an attempt threw: a MailError with its status, or anything else.
pub data Thrown : Type 0 where
  other_error : Thrown
  mail_error : Option ℕ → Text → Thrown

pub data Attempt (A : Type 0) : Type 0 where
  returned : A → Attempt A
  thrown : Thrown → Attempt A

abbrev ascii_lower : Text → Text
ascii_lower = map (λ c. if leb 65 c && leb c 90 then c + 32 else c)

-- /quota|rate ?limit/i
unfoldable pub names_quota : Text → Bool
names_quota message =
    includes (ascii_lower message) (codes "quota")
    || includes (ascii_lower message) (codes "ratelimit")
    || includes (ascii_lower message) (codes "rate limit")

abbrev is_status_limited : Option ℕ → Text → Bool
is_status_limited none message = false
is_status_limited (some status) message = status == 429 || (status == 403 && names_quota message)

unfoldable pub is_rate_limited : Thrown → Bool
is_rate_limited other_error = false
is_rate_limited (mail_error status message) = is_status_limited status message

abbrev pub rate_limit_delays_ms : List ℕ
rate_limit_delays_ms = 2000 ∷ 5000 ∷ 15000 ∷ 30000 ∷ 60000 ∷ []

-- delays[attempt]; out of range it is undefined, and a timer waits 0.
abbrev pub delay_at : List ℕ → ℕ → ℕ
delay_at [] attempt = 0
delay_at (ms ∷ delays) zero = ms
delay_at (ms ∷ delays) (suc attempt) = delay_at delays attempt

-- The last answer, how many attempts came before it, and the waits.
pub record Run (A : Type 0) : Type 0 where
  pub answer : Attempt A
  pub retries : ℕ
  pub slept : List ℕ

module _ {A : Type 0} (work : ℕ → Attempt A) (delays : List ℕ) where
  -- What one attempt leads to: the end of the loop, or a wait and the rest of it.
  abbrev pub after_attempt : Attempt A → ℕ → List ℕ → Option (Run A) → Option (Run A)
  after_attempt (returned a) attempt slept rest =
      some (record { answer = returned a; retries = attempt; slept = slept })
  after_attempt (thrown e) attempt slept rest =
      if not (is_rate_limited e) || leb (length delays) attempt
      then some (record { answer = thrown e; retries = attempt; slept = slept })
      else rest

  -- The loop `for (let attempt = 0; ; attempt++)` on fuel; `none` means that the fuel ran out.
  unfoldable pub retry_from : ℕ → ℕ → List ℕ → Option (Run A)
  retry_from zero attempt slept = none
  retry_from (suc fuel) attempt slept =
      after_attempt (work attempt) attempt slept
        (retry_from fuel (suc attempt) (slept ++ delay_at delays attempt ∷ []))

  unfoldable pub with_rate_limit_retry : Option (Run A)
  with_rate_limit_retry = retry_from (suc (length delays)) 0 []
