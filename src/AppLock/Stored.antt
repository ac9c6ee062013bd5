-- ===== src/AppLock/Stored.antt =====
-- What reading the preferences back from a store yields.
use crypt_mail.Prelude.{
  ℕ, ◌+◌, ◌-◌, ◌≤◌, ◌<◌, ◌≡◌, refl, ◌≢◌, ◌↔◌, Bool, true, false, ◌&&◌, ◌||◌, Option, none, some, [],
  ◌∷◌, arith, null, boolean, number, text, object, ltb, leb, Text, text_eq, Value,
}
use crypt_mail.AppLock.{
  PinVerifier, LockTimeout, timeout_name, lock_timeout_ms, AppLockPrefs, is_some, is_lock_enabled,
  should_lock_on_return, RawPrefs, is_truthy, pin_of, timeout_of, normalise_app_lock, immediately,
  m1, m5, m15, h1,
}

-- The preferences as the store keeps them.
abbrev pub saved_pin : Option PinVerifier → Value PinVerifier
saved_pin none = null
saved_pin (some verifier) = object verifier

unfoldable pub saved : AppLockPrefs → RawPrefs
saved prefs = record {
  pin = saved_pin prefs.pin;
  biometrics = boolean prefs.biometrics;
  timeout = text (timeout_name prefs.timeout);
  failures = number prefs.failures;
  locked_until = number prefs.locked_until;
}

-- Biometrics mean nothing without a PIN.
abbrev pub IsCoherent : AppLockPrefs → Type 0
IsCoherent prefs = prefs.biometrics ≡ true → is_lock_enabled prefs ≡ true

timeout_of-timeout_name : (t : LockTimeout) → timeout_of (text (timeout_name t)) ≡ t
unfolding text_eq
timeout_of-timeout_name immediately = refl
timeout_of-timeout_name m1 = refl
timeout_of-timeout_name m5 = refl
timeout_of-timeout_name m15 = refl
timeout_of-timeout_name h1 = refl

pin_of-saved_pin : (p : Option PinVerifier) → pin_of (saved_pin p) ≡ p
pin_of-saved_pin none = refl
pin_of-saved_pin (some v) = refl

biometrics_kept :
    (b : Bool) (p : Option PinVerifier)
    → (b ≡ true → is_some p ≡ true)
    → (b && is_truthy (saved_pin p)) ≡ b
biometrics_kept false p h = refl
biometrics_kept true none h = h refl
biometrics_kept true (some v) h = refl

-- Reading back what was written gives the same preferences, where biometrics are on only with a PIN:
-- the verifier, the time limit, the wrong guesses and the cooldown all survive a restart.
pub normalise-saved :
    (prefs : AppLockPrefs) → IsCoherent prefs → normalise_app_lock (some (saved prefs)) ≡ prefs
unfolding normalise_app_lock saved is_lock_enabled
normalise-saved prefs h = λ i. record {
  pin = pin_of-saved_pin prefs.pin i;
  biometrics = biometrics_kept prefs.biometrics prefs.pin h i;
  timeout = timeout_of-timeout_name prefs.timeout i;
  failures = prefs.failures;
  locked_until = prefs.locked_until;
}

-- A stored verifier that is a non-empty text, where biometrics are stored as on, reads back as a
-- lock that is off, with biometrics on.
pub normalise_text_pin :
    (raw : RawPrefs) (t : Text)
    → raw.pin ≡ text t
    → t ≢ []
    → raw.biometrics ≡ boolean true
    → (is_lock_enabled (normalise_app_lock (some raw)) ≡ false)
      × ((normalise_app_lock (some raw)).biometrics ≡ true)
unfolding normalise_app_lock is_lock_enabled
normalise_text_pin raw [] damaged full on = absurd (full refl)
normalise_text_pin raw (c ∷ t) damaged full on = (simp damaged, simp (damaged, on))

long_enough :
    (limit away_at now away : ℕ)
    → now ≡ away_at + away
    → (ltb now away_at || leb limit (now - away_at)) ≡ true
    → limit ≤ away
long_enough limit away_at now away e h = ground arith

-- A return to the foreground, with the lock on: the clock that went backwards locks, so does an absence
-- of the time limit or more, and a shorter one does not; without an absence to judge nothing locks.
pub should_lock-cases :
    (prefs : AppLockPrefs) (away_at now : ℕ)
    → is_lock_enabled prefs ≡ true
    → (now < away_at → should_lock_on_return prefs (some away_at) now ≡ true)
      × ((away : ℕ)
          → now ≡ away_at + away
          → (should_lock_on_return prefs (some away_at) now ≡ true)
            ↔ (lock_timeout_ms prefs.timeout ≤ away))
      × (should_lock_on_return prefs none now ≡ false)
unfolding should_lock_on_return
should_lock-cases prefs away_at now on = (
  (λ h. rw on (ground arith)),
  (λ away e. (
    (λ locks. long_enough (lock_timeout_ms prefs.timeout) away_at now away e (rw on at locks)),
    (λ h. rw on (ground arith)),
  )),
  rw on,
)
