-- ===== src/Prelude/Values.antt =====
-- A value of unknown type, as a store or a push hands it over. Objects are what the reader takes them
-- for; numbers are natural, and a negative or non-finite one is `odd_number`.
use Prim.Native.Nat.{ℕ}
use mathlib.Core.Bool.{Bool}
use crypt_mail.Prelude.Strings.{Text}

pub data Value {ℓ} (O : Type ℓ) : Type ℓ where
  undefined : Value O
  null : Value O
  boolean : Bool → Value O
  number : ℕ → Value O
  odd_number : Value O
  text : Text → Value O
  array : Value O
  object : O → Value O
