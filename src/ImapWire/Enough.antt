-- ===== src/ImapWire/Enough.antt =====
-- The rounds of the loop over a line: each one takes a character, so the length of the line is enough.
use crypt_mail.Prelude.{
  ℕ, zero, suc, ◌≤◌, ◌≡◌, refl, inl, inr, Bool, true, false, ◌&&◌, not, [], ◌∷◌, arith, ◌==◌,
  Bool-cases, Text, Locale, length, is_empty,
}
use crypt_mail.ImapWire.{
  Stack, quoted_piece, ends_atom, depth_after, atom_piece, is_size, step, tokenize_line,
}

quoted_piece-IsWithin :
    (escaped : Bool) (s : Text) → length (quoted_piece escaped s).rest ≤ length s
unfolding quoted_piece
quoted_piece-IsWithin escaped [] = omega arith
quoted_piece-IsWithin true (c ∷ s) = omega (arith, quoted_piece-IsWithin false s)
quoted_piece-IsWithin false (c ∷ s) = elim (Bool-cases (c == 34)) [
  | inl e ↦ simp e (omega arith)
  | inr n ↦ elim (Bool-cases (c == 92 && not (is_empty s))) [
    | inl e ↦ simp (n, e) (omega (arith, quoted_piece-IsWithin true s))
    | inr m ↦ simp (n, m) (omega (arith, quoted_piece-IsWithin false s))
  ]
]

atom_piece-IsWithin : (depth : ℕ) (s : Text) → length (atom_piece depth s).rest ≤ length s
unfolding atom_piece
atom_piece-IsWithin depth [] = omega arith
atom_piece-IsWithin depth (c ∷ s) = elim (Bool-cases (depth == 0 && ends_atom c)) [
  | inl e ↦ simp e (omega arith)
  | inr n ↦ simp n (omega (arith, atom_piece-IsWithin (depth_after c depth) s))
]

-- An atom has at least the character that it begins with.
atom_piece-first :
    (c : ℕ) (s : Text) → ends_atom c ≡ false → length (atom_piece 0 (c ∷ s)).rest ≤ length s
unfolding atom_piece
atom_piece-first c s h = simp h (atom_piece-IsWithin (depth_after c 0) s)

step-left :
    (loc : Locale) (c : ℕ) (s : Text) (stack : Stack) → length (step loc c s stack).left ≤ length s
unfolding step
step-left loc c s stack = elim (Bool-cases (c == 32)) [
  | inl e ↦ simp e (omega arith)
  | inr a ↦ elim (Bool-cases (c == 40)) [
    | inl e ↦ simp (a, e) (omega arith)
    | inr b ↦ elim (Bool-cases (c == 41)) [
      | inl e ↦ simp (a, b, e) (omega arith)
      | inr d ↦ elim (Bool-cases (c == 34)) [
        | inl e ↦ simp (a, b, d, e) (quoted_piece-IsWithin false s)
        | inr q ↦ elim (Bool-cases (c == 123 && is_size false s)) [
          | inl e ↦ simp (a, b, d, q, e) (omega arith)
          | inr m ↦ simp (a, b, d, q, m) (atom_piece-first c s (ground arith))
        ]
      ]
    ]
  ]
]

-- The loop over a line ends by itself: with any number of rounds that is at least the length of the line, it
-- has the same result as with any other such number.
pub tokenize_line-enough :
    (loc : Locale) (n m : ℕ) (s : Text) (stack : Stack)
    → length s ≤ n
    → length s ≤ m
    → tokenize_line loc n s stack ≡ tokenize_line loc m s stack
unfolding tokenize_line
tokenize_line-enough loc zero zero [] stack h k = refl
tokenize_line-enough loc zero (suc m) [] stack h k = refl
tokenize_line-enough loc (suc n) zero [] stack h k = refl
tokenize_line-enough loc (suc n) (suc m) [] stack h k = refl
tokenize_line-enough loc zero m (c ∷ s) stack h k = absurd (omega arith)
tokenize_line-enough loc (suc n) zero (c ∷ s) stack h k = absurd (omega arith)
tokenize_line-enough loc (suc n) (suc m) (c ∷ s) stack h k =
    let fits = step-left loc c s stack in
    tokenize_line-enough loc n m (step loc c s stack).left (step loc c s stack).stack (omega arith)
      (omega arith)
