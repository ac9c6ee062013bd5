-- ===== src/AppLock.antt =====
-- The app lock's rules (app/src/applock/appLock.ts): the PIN verifier, the cooldown after wrong PINs,
-- when a return to the foreground locks, and what is read back from the store. Times are milliseconds.
-- The key derivation (PBKDF2 of a third-party package) is a parameter.
pub mod Cooldown
pub mod Pin
pub mod Stored
mod Tests
use crypt_mail.Prelude.{
  ℕ, ◌+◌, ◌-◌, ◌*◌, ◌/◌, ◌^◌, min, Bool, true, false, ◌&&◌, ◌||◌, not, Option, none, some, List, [],
  ◌∷◌, ◌++◌, undefined, null, boolean, number, text, array, object, ltb, leb, ◌==◌, if◌then◌else◌,
  length, all, find?, Text, codes, text_eq, is_empty, decimal, Value,
}
use Prim.Native.Nat.{bit_or, bit_xor}
use crypt_mail.Base64.{bytes_to_base64, base64_to_bytes}

abbrev pub pin_min_length : ℕ
pin_min_length = 4

abbrev pub pin_max_length : ℕ
pin_max_length = 8

abbrev pub pin_iterations : ℕ
pin_iterations = 1000

pub record PinVerifier : Type 0 where
  pub salt : Text
  pub hash : Text
  pub iterations : ℕ
  pub pin_length : ℕ

-- 'immediately', '1m', '5m', '15m', '1h'
pub data LockTimeout : Type 0 where
  immediately m1 m5 m15 h1 : LockTimeout

abbrev pub lock_timeouts : List LockTimeout
lock_timeouts = immediately ∷ m1 ∷ m5 ∷ m15 ∷ h1 ∷ []

abbrev pub timeout_name : LockTimeout → Text
timeout_name immediately = codes "immediately"
timeout_name m1 = codes "1m"
timeout_name m5 = codes "5m"
timeout_name m15 = codes "15m"
timeout_name h1 = codes "1h"

unfoldable pub lock_timeout_ms : LockTimeout → ℕ
lock_timeout_ms immediately = 0
lock_timeout_ms m1 = 60000
lock_timeout_ms m5 = 5 * 60000
lock_timeout_ms m15 = 15 * 60000
lock_timeout_ms h1 = 60 * 60000

pub record AppLockPrefs : Type 0 where
  pub pin : Option PinVerifier
  pub biometrics : Bool
  pub timeout : LockTimeout
  pub failures : ℕ
  pub locked_until : ℕ

abbrev pub default_app_lock : AppLockPrefs
default_app_lock = record {
  pin = none;
  biometrics = false;
  timeout = immediately;
  failures = 0;
  locked_until = 0;
}

abbrev pub is_some {ℓ} : {A : Type ℓ} → Option A → Bool
is_some none = false
is_some (some a) = true

unfoldable pub is_lock_enabled : AppLockPrefs → Bool
is_lock_enabled prefs = is_some prefs.pin

abbrev pub is_digit : ℕ → Bool
is_digit c = leb b'0' c && leb c b'9'

-- ^[0-9]{4,8}$
unfoldable pub is_valid_pin : Text → Bool
is_valid_pin pin =
    leb pin_min_length (length pin) && (leb (length pin) pin_max_length && all is_digit pin)

-- The loop of `constantTimeEqual`.
unfoldable pub diff_from : ℕ → List ℕ → List ℕ → ℕ
diff_from diff [] b = diff
diff_from diff (x ∷ a) [] = diff
diff_from diff (x ∷ a) (y ∷ b) = diff_from (bit_or diff (bit_xor x y)) a b

unfoldable pub constant_time_equal : List ℕ → List ℕ → Bool
constant_time_equal a b = length a == length b && diff_from 0 a b == 0

-- pbkdf2Async(sha256, pin, salt, { c: iterations, dkLen: 32 })
abbrev pub Kdf : Type 0
Kdf = Text → List ℕ → ℕ → List ℕ

module _ (derive : Kdf) where
  -- `none` is the error that refuses what is not a PIN.
  unfoldable pub make_pin_verifier : Text → List ℕ → ℕ → Option PinVerifier
  make_pin_verifier pin salt iterations =
      if is_valid_pin pin
      then some (record {
        salt = bytes_to_base64 salt;
        hash = bytes_to_base64 (derive pin salt iterations);
        iterations = iterations;
        pin_length = length pin;
      })
      else none

  unfoldable pub check_pin : Text → PinVerifier → Bool
  check_pin pin verifier =
      if not (is_valid_pin pin) || not (length pin == verifier.pin_length)
      then false
      else constant_time_equal (derive pin (base64_to_bytes verifier.salt) verifier.iterations)
          (base64_to_bytes verifier.hash)

unfoldable pub needs_rehash : PinVerifier → Bool
needs_rehash verifier = not (verifier.iterations == pin_iterations)

abbrev pub free_attempts : ℕ
free_attempts = 5

abbrev pub first_cooldown_ms : ℕ
first_cooldown_ms = 30000

abbrev pub max_cooldown_ms : ℕ
max_cooldown_ms = 60 * 60000

unfoldable pub cooldown_after : ℕ → ℕ
cooldown_after failures =
    if ltb failures free_attempts
    then 0
    else min (first_cooldown_ms * 2 ^ min (failures - free_attempts) 20) max_cooldown_ms

unfoldable pub after_failure : AppLockPrefs → ℕ → AppLockPrefs
after_failure prefs now =
    let wait = cooldown_after (prefs.failures + 1) in
    record prefs {
      failures = prefs.failures + 1;
      locked_until = if ltb 0 wait then now + wait else 0;
    }

unfoldable pub after_success : AppLockPrefs → AppLockPrefs
after_success prefs = record prefs { failures = 0; locked_until = 0 }

-- Subtraction stops at 0, as the maximum with 0 does.
unfoldable pub cooldown_remaining : AppLockPrefs → ℕ → ℕ
cooldown_remaining prefs now = prefs.locked_until - now

abbrev away_long : ℕ → ℕ → ℕ → Bool
away_long limit away_at now = ltb now away_at || leb limit (now - away_at)

abbrev locks_after : AppLockPrefs → Option ℕ → ℕ → Bool
locks_after prefs none now = false
locks_after prefs (some away_at) now = away_long (lock_timeout_ms prefs.timeout) away_at now

unfoldable pub should_lock_on_return : AppLockPrefs → Option ℕ → ℕ → Bool
should_lock_on_return prefs away_at now =
    if is_lock_enabled prefs then locks_after prefs away_at now else false

-- What a store may hold in place of the preferences.
pub record RawPrefs : Type 0 where
  pub pin : Value PinVerifier
  pub biometrics : Value PinVerifier
  pub timeout : Value PinVerifier
  pub failures : Value PinVerifier
  pub locked_until : Value PinVerifier

-- !!v
abbrev pub is_truthy : Value PinVerifier → Bool
is_truthy undefined = false
is_truthy null = false
is_truthy (boolean b) = b
is_truthy (number n) = not (n == 0)
is_truthy (text t) = not (is_empty t)
is_truthy _ = true

-- An array is an object too; what it has for fields is nothing that a verifier has.
abbrev pub empty_verifier : PinVerifier
empty_verifier = record { salt = []; hash = []; iterations = 0; pin_length = 0 }

abbrev pub pin_of : Value PinVerifier → Option PinVerifier
pin_of (object verifier) = some verifier
pin_of array = some empty_verifier
pin_of _ = none

abbrev pub is_true : Value PinVerifier → Bool
is_true (boolean b) = b
is_true _ = false

abbrev pub timeout_of : Value PinVerifier → LockTimeout
timeout_of (text t) = elim (find? (λ (l : LockTimeout). text_eq (timeout_name l) t) lock_timeouts) [
  | none ↦ immediately
  | some l ↦ l
]
timeout_of _ = immediately

abbrev pub non_negative : Value PinVerifier → ℕ
non_negative (number n) = n
non_negative _ = 0

unfoldable pub normalise_app_lock : Option RawPrefs → AppLockPrefs
normalise_app_lock none = default_app_lock
normalise_app_lock (some value) = record {
  pin = pin_of value.pin;
  biometrics = is_true value.biometrics && is_truthy value.pin;
  timeout = timeout_of value.timeout;
  failures = non_negative value.failures;
  locked_until = non_negative value.locked_until;
}

-- Math.ceil(n / d)
abbrev ceil_div : ℕ → ℕ → ℕ
ceil_div n d = (n + (d - 1)) / d

abbrev counted : ℕ → Text → Text
counted n unit = decimal n ++ (codes " " ++ (unit ++ (if n == 1 then [] else codes "s")))

unfoldable pub describe_wait : ℕ → Text
describe_wait ms =
    let seconds = ceil_div ms 1000 in
    let minutes = ceil_div seconds 60 in
    let hours = ceil_div minutes 60 in
    if ltb seconds 60
    then counted seconds (codes "second")
    else if ltb minutes 60
    then counted minutes (codes "minute")
    else counted hours (codes "hour")
