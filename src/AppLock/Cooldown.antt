-- ===== src/AppLock/Cooldown.antt =====
-- How long wrong PINs are refused, and how long guessing takes.
use native.Mathlib.Nat.{pow-le-pow_right}
use native.Mathlib.Decide.{dec_le}
use crypt_mail.Prelude.{
  ℕ, zero, suc, ◌+◌, ◌-◌, ◌*◌, ◌^◌, ◌≤◌, ◌<◌, min, ◌≡◌, refl, ap, ◌↔◌, List, [], ◌∷◌, arith, length,
}
use crypt_mail.AppLock.{
  AppLockPrefs, free_attempts, max_cooldown_ms, cooldown_after, after_failure, cooldown_remaining,
}

pow_mono : (i j : ℕ) → i ≤ j → 2 ^ i ≤ 2 ^ j
pow_mono i j h = pow-le-pow_right (omega arith) h

one-le-doublings : (n : ℕ) → 1 ≤ 2 ^ min n 20
one-le-doublings n = pow_mono 0 (min n 20) (omega arith)

cooldown_zero : (failures : ℕ) → (cooldown_after failures ≡ 0) ↔ (failures < free_attempts)
unfolding cooldown_after
cooldown_zero failures =
    ((λ h. ground (arith, one-le-doublings (failures - 5))), (λ h. ground arith))

cooldown_capped : (failures : ℕ) → cooldown_after failures ≤ max_cooldown_ms
unfolding cooldown_after
cooldown_capped failures = ground arith

cooldown_mono :
    (failures more : ℕ) → failures ≤ more → cooldown_after failures ≤ cooldown_after more
unfolding cooldown_after
cooldown_mono failures more h =
    ground (arith, pow_mono (min (failures - 5) 20) (min (more - 5) 20) (omega arith))

cooldown_full : (failures : ℕ) → 12 ≤ failures → cooldown_after failures ≡ max_cooldown_ms
unfolding cooldown_after
cooldown_full failures h = ground (arith, pow_mono 7 (min (failures - 5) 20) (omega arith))

-- The cooldown is none exactly for the first four misses in a row, never more than an hour, never
-- shorter after more misses, and the full hour from the twelfth miss on.
pub cooldown_after_bounds :
    (failures more : ℕ)
    → failures ≤ more
    → ((cooldown_after failures ≡ 0) ↔ (failures < free_attempts))
      × (cooldown_after failures ≤ max_cooldown_ms)
      × (cooldown_after failures ≤ cooldown_after more)
      × (12 ≤ failures → cooldown_after failures ≡ max_cooldown_ms)
cooldown_after_bounds failures more h = (
  cooldown_zero failures,
  cooldown_capped failures,
  cooldown_mono failures more h,
  cooldown_full failures,
)

-- Wrong guesses, one at each of the times.
unfoldable pub guess_all : AppLockPrefs → List ℕ → AppLockPrefs
guess_all prefs [] = prefs
guess_all prefs (t ∷ ts) = guess_all (after_failure prefs t) ts

-- Every guess is made when a PIN is checked at all.
abbrev pub Checked : AppLockPrefs → List ℕ → Type 0
Checked prefs [] = Unit
Checked prefs (t ∷ ts) = (cooldown_remaining prefs t ≡ 0) × Checked (after_failure prefs t) ts

-- The wait that the misses `k + 1` to `k + n` impose.
abbrev pub waits : ℕ → ℕ → ℕ
waits k zero = 0
waits k (suc n) = cooldown_after (k + 1) + waits (k + 1) n

-- The guesses are made at the start or after it.
abbrev pub Since : ℕ → List ℕ → Type 0
Since start [] = Unit
Since start (t ∷ ts) = (start ≤ t) × Since start ts

-- PINs are refused before a time: by the lock, or because it is the start and no wait has begun.
abbrev IsRefusedTo : ℕ → ℕ → AppLockPrefs → Type 0
IsRefusedTo start until prefs =
    (prefs.failures < free_attempts → until ≤ start)
    × (free_attempts ≤ prefs.failures → until ≤ prefs.locked_until)

-- A guess adds its wait to the time before which PINs are refused.
after_failure-IsRefusedTo :
    (start until : ℕ) (prefs : AppLockPrefs) (t : ℕ)
    → IsRefusedTo start until prefs
    → start ≤ t
    → cooldown_remaining prefs t ≡ 0
    → IsRefusedTo start (until + cooldown_after (prefs.failures + 1)) (after_failure prefs t)
unfolding after_failure cooldown_remaining
after_failure-IsRefusedTo start until prefs t r s h = (
  (λ few. ground (arith, (cooldown_zero (prefs.failures + 1)).1, r)),
  (λ many. ground (arith, (cooldown_zero (prefs.failures + 1)).0, r)),
)

after_failure-waits :
    (prefs : AppLockPrefs) (t n : ℕ)
    → waits (after_failure prefs t).failures n ≡ waits (prefs.failures + 1) n
unfolding after_failure
after_failure-waits prefs t n = refl

guess_all-IsRefusedTo :
    (start until : ℕ) (prefs : AppLockPrefs) (ts : List ℕ)
    → IsRefusedTo start until prefs
    → Since start ts
    → Checked prefs ts
    → IsRefusedTo start (until + waits prefs.failures (length ts)) (guess_all prefs ts)
unfolding guess_all
guess_all-IsRefusedTo start until prefs [] r s c =
    ((λ few. omega (arith, r.0 few)), (λ many. omega (arith, r.1 many)))
guess_all-IsRefusedTo start until prefs (t ∷ ts) r s c =
    let (few, many) =
      guess_all-IsRefusedTo start (until + cooldown_after (prefs.failures + 1))
        (after_failure prefs t) ts (after_failure-IsRefusedTo start until prefs t r s.0 c.0) s.1
        c.1 in
    let same = after_failure-waits prefs t (length ts) in
    ((λ h. omega (arith, same, few h)), (λ h. omega (arith, same, many h)))

-- Where PINs are checked again, the time is past.
IsRefusedTo-over :
    (start until now : ℕ) (prefs : AppLockPrefs)
    → IsRefusedTo start until prefs
    → start ≤ now
    → cooldown_remaining prefs now ≡ 0
    → until ≤ now
unfolding cooldown_remaining
IsRefusedTo-over start until now prefs r s h = ground (arith, r)

waits_full : (k n : ℕ) → 11 ≤ k → waits k n ≡ n * max_cooldown_ms
waits_full k zero h = refl
waits_full k (suc n) h =
    omega (arith, cooldown_full (k + 1) (omega arith), waits_full (k + 1) n (omega arith))

waits_grow : (k n : ℕ) → (k + n - 11) * max_cooldown_ms ≤ waits k n + (k - 11) * max_cooldown_ms
waits_grow k zero = omega arith
waits_grow k (suc n) = elim (dec_le 11 k) [
  | yes h ↦ omega (arith, waits_full k (suc n) h)
  | no h ↦ omega (arith, waits_grow (k + 1) n)
]

-- Guessing is slow: from a lock with no misses, after any number of wrong guesses since a start, each made
-- while PINs are checked, no PIN is checked again before an hour has passed since the start for every guess
-- past the eleventh.
pub guess_all-waits :
    (prefs : AppLockPrefs) (ts : List ℕ) (start now : ℕ)
    → prefs.failures ≡ 0
    → Since start ts
    → start ≤ now
    → Checked prefs ts
    → cooldown_remaining (guess_all prefs ts) now ≡ 0
    → start + (length ts - 11) * max_cooldown_ms ≤ now
guess_all-waits prefs ts start now none_yet since later c h = omega (
  arith,
  IsRefusedTo-over start (start + waits prefs.failures (length ts)) now (guess_all prefs ts)
      (guess_all-IsRefusedTo start start prefs ts
        ((λ few. omega arith), (λ many. omega (arith, none_yet))) since c)
      later h,
  waits_grow 0 (length ts),
  ap (λ k. waits k (length ts)) none_yet,
)
