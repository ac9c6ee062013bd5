-- ===== src/AppLock/Pin.antt =====
-- The PIN's verifier: what it accepts, and what it refuses.
use crypt_mail.Prelude.{
  ℕ, ◌≡◌, refl, sym, ap, ◌↔◌, inl, inr, true, some, List, [], ◌∷◌, arith, ◌==◌, ==_iff, Bool-cases,
  &&-eq-true, some_injective, length, Text,
}
use Prim.Native.Nat.{bit_or, bit_xor}
use crypt_mail.Prelude.Bits.{bit_xor_eq_zero, bit_or_eq_zero}
use crypt_mail.Base64.{bytes_to_base64, base64_to_bytes}
use crypt_mail.Base64.Inverse.{AreBytes, base64_to_bytes-bytes_to_base64}
use crypt_mail.AppLock.{
  PinVerifier, is_valid_pin, diff_from, constant_time_equal, Kdf, make_pin_verifier, check_pin,
}

diff_from-zero :
    (diff : ℕ) (a b : List ℕ)
    → length a ≡ length b
    → (diff_from diff a b ≡ 0) ↔ ((diff ≡ 0) × (a ≡ b))
unfolding diff_from
diff_from-zero diff [] [] h = ((λ z. (z, refl)), (λ z. z.0))
diff_from-zero diff [] (y ∷ b) h = absurd (omega arith)
diff_from-zero diff (x ∷ a) [] h = absurd (omega arith)
diff_from-zero diff (x ∷ a) (y ∷ b) h =
    let (forth, back) = diff_from-zero (bit_or diff (bit_xor x y)) a b (omega arith) in
    (
      (λ z.
          let (joined, rest) = forth z in
          let (zero_so_far, apart) = (bit_or_eq_zero diff (bit_xor x y)).0 joined in
          (zero_so_far, cc ((bit_xor_eq_zero x y).0 apart, rest))),
      (λ z. back (
        (bit_or_eq_zero diff (bit_xor x y)).1 (z.0, (bit_xor_eq_zero x y).1 (cc (z.1))),
        cc (z.1),
      )),
    )

-- The comparison accepts exactly equal byte strings: no difference of one byte hides another.
pub constant_time_equal_iff : (a b : List ℕ) → (constant_time_equal a b ≡ true) ↔ (a ≡ b)
unfolding constant_time_equal
constant_time_equal_iff a b = (
  (λ h.
      let (same_length, no_difference) =
        &&-eq-true (length a == length b) (diff_from 0 a b == 0) h in
      ((diff_from-zero 0 a b ((==_iff (length a) (length b)).0 same_length)).0
        ((==_iff (diff_from 0 a b) 0).0 no_difference)).1),
  (λ e.
      let same_length = ap (λ (l : List ℕ). length l) e in
      rw (
        (==_iff (length a) (length b)).1 same_length,
        (diff_from-zero 0 a b same_length).1 (refl, e),
      )),
)

module _ (derive : Kdf) where
  abbrev verifier_of : Text → List ℕ → ℕ → PinVerifier
  verifier_of pin salt iterations = record {
    salt = bytes_to_base64 salt;
    hash = bytes_to_base64 (derive pin salt iterations);
    iterations = iterations;
    pin_length = length pin;
  }

  made :
      (pin : Text) (salt : List ℕ) (iterations : ℕ) (v : PinVerifier)
      → make_pin_verifier derive pin salt iterations ≡ some v
      → (is_valid_pin pin ≡ true) × (v ≡ verifier_of pin salt iterations)
  unfolding make_pin_verifier
  made pin salt iterations v h = elim (Bool-cases (is_valid_pin pin)) [
    | inl valid ↦ (valid, sym (some_injective _ _ (rw valid at h)))
    | inr other ↦ absurd (cc (rw other at h))
  ]

  check_pin_iff :
      (pin : Text) (v : PinVerifier)
      → (check_pin derive pin v ≡ true) ↔ (
          (is_valid_pin pin ≡ true)
          × (length pin ≡ v.pin_length)
          × (derive pin (base64_to_bytes v.salt) v.iterations ≡ base64_to_bytes v.hash))
  unfolding check_pin
  check_pin_iff pin v =
      let (forth, back) =
        constant_time_equal_iff (derive pin (base64_to_bytes v.salt) v.iterations)
          (base64_to_bytes v.hash) in
      elim (Bool-cases (is_valid_pin pin)) [
        | inr other ↦ ((λ h. absurd (cc (rw other at h))), (λ h. absurd (cc (other, h.0))))
        | inl valid ↦ elim (Bool-cases (length pin == v.pin_length)) [
          | inr other ↦ (
            (λ h. absurd (cc (rw (valid, other) at h))),
            (λ h. absurd (cc (other, (==_iff (length pin) v.pin_length).1 h.1))),
          )
          | inl same ↦ (
            (λ h.
                (valid, (==_iff (length pin) v.pin_length).0 same, forth (rw (valid, same) at h))),
            (λ h. rw (valid, same) (back h.2)),
          )
        ]
      ]

  -- A verifier made from a PIN accepts exactly the valid PINs of the same length whose derived key,
  -- under the same salt and rounds, is the same; so it accepts the PIN it was made from. The salt
  -- and the derived key are bytes.
  pub check_pin-make_pin_verifier :
      (pin guess : Text) (salt : List ℕ) (iterations : ℕ) (v : PinVerifier)
      → AreBytes salt
      → AreBytes (derive pin salt iterations)
      → make_pin_verifier derive pin salt iterations ≡ some v
      → ((check_pin derive guess v ≡ true) ↔ (
          (is_valid_pin guess ≡ true)
          × (length guess ≡ length pin)
          × (derive guess salt iterations ≡ derive pin salt iterations)))
        × (check_pin derive pin v ≡ true)
  check_pin-make_pin_verifier pin guess salt iterations v salted derived h =
      let (valid, e) = made pin salt iterations v h in
      let salt_back = base64_to_bytes-bytes_to_base64 salt salted in
      let hash_back = base64_to_bytes-bytes_to_base64 (derive pin salt iterations) derived in
      rw e (
        rw (salt_back, hash_back) at (check_pin_iff guess (verifier_of pin salt iterations)),
        (check_pin_iff pin (verifier_of pin salt iterations)).1
            (valid, refl, rw (salt_back, hash_back)),
      )
