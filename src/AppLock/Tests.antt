-- ===== src/AppLock/Tests.antt =====
-- The app lock at concrete inputs.
use crypt_mail.Prelude.{
  ℕ, ◌+◌, ◌-◌, ◌*◌, ◌%◌, ◌≤◌, ◌≡◌, refl, ◌↔◌, true, Option, none, some, List, [], ◌∷◌, arith, text,
  length, Text, codes,
}
use crypt_mail.AppLock.{
  PinVerifier, AppLockPrefs, is_valid_pin, Kdf, make_pin_verifier, check_pin, max_cooldown_ms,
  cooldown_after, after_failure, cooldown_remaining, RawPrefs, m1,
}
use crypt_mail.AppLock.Cooldown.{guess_all, guess_all-waits}
use crypt_mail.AppLock.Pin.{check_pin-make_pin_verifier}
use crypt_mail.AppLock.Stored.{saved}

-- A derivation of one byte that stands for PBKDF2.
abbrev sum_of : Text → ℕ
sum_of [] = 0
sum_of (c ∷ t) = c + sum_of t

abbrev digest : Kdf
digest pin salt iterations = sum_of pin % 256 ∷ []

abbrev or_verifier : Option PinVerifier → PinVerifier
or_verifier none = record { salt = []; hash = []; iterations = 0; pin_length = 0 }
or_verifier (some v) = v

abbrev verifier : PinVerifier
verifier = or_verifier (make_pin_verifier digest (codes "1234") (1 ∷ []) 1000)

abbrev locked : AppLockPrefs
locked = record {
  pin = some verifier;
  biometrics = true;
  timeout = m1;
  failures = 0;
  locked_until = 0;
}

cooldown_after_test : cooldown_after 6 ≡ 60000
unfolding cooldown_after
cooldown_after_test = refl

abbrev guess_times : List ℕ
guess_times = 1 ∷ 2 ∷ 3 ∷ 4 ∷ 5 ∷ 40000 ∷ []

guess_all-waits_example : 1 + (length guess_times - 11) * max_cooldown_ms ≤ 200000
unfolding cooldown_remaining after_failure cooldown_after guess_all
guess_all-waits_example =
    guess_all-waits locked guess_times 1 200000 refl
      (omega arith, (omega arith, (omega arith, (omega arith, (omega arith, (omega arith, tt))))))
      (omega arith) (refl, (refl, (refl, (refl, (refl, (refl, tt)))))) refl

abbrev short : List ℕ
short = 1 ∷ 2 ∷ []

abbrev other : List ℕ
other = 1 ∷ 3 ∷ []

check_pin-make_pin_verifier_example :
    ((check_pin digest (codes "1235") verifier ≡ true) ↔ (
      (is_valid_pin (codes "1235") ≡ true)
      × (length (codes "1235") ≡ length (codes "1234"))
      × (digest (codes "1235") (1 ∷ []) 1000 ≡ digest (codes "1234") (1 ∷ []) 1000)))
    × (check_pin digest (codes "1234") verifier ≡ true)
unfolding make_pin_verifier is_valid_pin
check_pin-make_pin_verifier_example =
    check_pin-make_pin_verifier digest (codes "1234") (codes "1235") (1 ∷ []) 1000 verifier
      (omega arith, tt) (omega arith, tt) refl

abbrev damaged : RawPrefs
damaged = record (saved locked) { pin = text (codes "{") }
