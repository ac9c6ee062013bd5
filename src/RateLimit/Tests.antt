-- ===== src/RateLimit/Tests.antt =====
-- The loop of retries at a concrete input: one refusal, then an answer.
use crypt_mail.Prelude.{ℕ, zero, suc, ◌≡◌, some, []}
use crypt_mail.RateLimit.{
  Attempt, returned, thrown, mail_error, Run, rate_limit_delays_ms, with_rate_limit_retry,
}
use crypt_mail.RateLimit.Retrying.{IsRetried, with_rate_limit_retry-IsRetried}

abbrev second_time : ℕ → Attempt ℕ
second_time zero = thrown (mail_error (some 429) [])
second_time (suc attempt) = returned 7

with_rate_limit_retry-IsRetried_example :
    (run : Run ℕ) × (with_rate_limit_retry second_time rate_limit_delays_ms ≡ some run)
    × IsRetried ℕ second_time rate_limit_delays_ms 0 [] run
with_rate_limit_retry-IsRetried_example =
    with_rate_limit_retry-IsRetried second_time rate_limit_delays_ms
