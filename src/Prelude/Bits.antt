-- ===== src/Prelude/Bits.antt =====
-- When `|` and `^` of two numbers are 0, from the sums over binary digits that they stand for.
use Prim.Native.Nat.{
  ℕ, zero, suc, ◌/◌, ◌%◌, ◌≤◌, max, bit_or, bit_xor, digits, differ, bit_or-bitwise,
  bit_xor-bitwise,
}
use mathlib.Core.Path.{◌≡◌, refl, ap, sym, subst, ◌∙◌}
use mathlib.Core.Logic.{◌↔◌}
use native.Mathlib.Omega.{arith}

equal_digits : (c d : ℕ) → differ c d ≡ 0 → c ≡ d
equal_digits zero d h = sym h
equal_digits (suc c) zero h = h
equal_digits (suc c) (suc d) h = ap suc (equal_digits c d h)

same_digit : (c : ℕ) → differ c c ≡ 0
same_digit zero = refl
same_digit (suc c) = same_digit c

-- The sum of the differing digits, on enough steps.
abbrev differing : ℕ → ℕ → ℕ → ℕ
differing steps left right = digits (λ d. d) differ steps left right

abbrev joint : ℕ → ℕ → ℕ → ℕ
joint steps left right = digits (λ d. d) max steps left right

differing-none :
    (steps left right : ℕ) → left ≤ steps → differing steps left right ≡ 0 → left ≡ right
differing-none steps zero right enough none = differing_from_zero steps right none
  where
    differing_from_zero : (steps right : ℕ) → differing steps 0 right ≡ 0 → 0 ≡ right
    differing_from_zero zero right none = sym none
    differing_from_zero (suc steps) right none = sym none
differing-none zero (suc left) right enough none = absurd (omega arith)
differing-none (suc steps) (suc left) right enough none = omega (
  arith,
  differing-none steps (suc left / 2) (right / 2) (omega arith) (omega arith),
  equal_digits (suc left % 2) (right % 2) (omega arith),
)

differing_self : (steps left : ℕ) → left ≤ steps → differing steps left left ≡ 0
differing_self zero zero enough = refl
differing_self (suc steps) zero enough = refl
differing_self zero (suc left) enough = absurd (omega arith)
differing_self (suc steps) (suc left) enough =
    omega (arith, differing_self steps (suc left / 2) (omega arith), same_digit (suc left % 2))

joint-none :
    (steps left right : ℕ) → left ≤ steps → joint steps left right ≡ 0 → (left ≡ 0) × (right ≡ 0)
joint-none zero zero right enough none = (refl, none)
joint-none (suc steps) zero right enough none = (refl, none)
joint-none zero (suc left) right enough none = absurd (omega arith)
joint-none (suc steps) (suc left) right enough none =
    let halves = joint-none steps (suc left / 2) (right / 2) (omega arith) (omega arith) in
    absurd (omega (arith, halves.0))

pub bit_xor_eq_zero : (left right : ℕ) → (bit_xor left right ≡ 0) ↔ (left ≡ right)
bit_xor_eq_zero left right = (
  (λ none. differing-none left left right (omega arith) (sym (bit_xor-bitwise left right) ∙ none)),
  (λ same.
      subst (λ r. bit_xor left r ≡ 0) same
        (bit_xor-bitwise left left ∙ differing_self left left (omega arith))),
)

pub bit_or_eq_zero : (left right : ℕ) → (bit_or left right ≡ 0) ↔ ((left ≡ 0) × (right ≡ 0))
bit_or_eq_zero left right = (
  (λ none. joint-none left left right (omega arith) (sym (bit_or-bitwise left right) ∙ none)),
  (λ zeros.
      subst (λ l. bit_or l right ≡ 0) (sym zeros.0)
        (subst (λ r. bit_or 0 r ≡ 0) (sym zeros.1) (bit_or-bitwise 0 0))),
)
