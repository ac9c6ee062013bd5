-- ===== src/ImapWire/Arguments.antt =====
-- Arguments written and read: the quoted ones, and the literals.
use crypt_mail.Prelude.{◌≡◌, true, false, [], ◌∷◌, all, Text, Locale}
use crypt_mail.ImapWire.{
  word, octets, end, value, line, tokenize, as_text, CommandPart, written, literal, is_printable,
}

-- What an argument stands for: a quoted one is a line of printable characters that is read as the text alone,
-- and a literal, whose bytes follow its length, holds the text that has other characters.
abbrev pub IsArgument : Locale → Text → CommandPart → Type 0
IsArgument loc s (written t) =
    (all is_printable t ≡ true) × (tokenize loc (line t ∷ []) ≡ value (word s) end)
IsArgument loc s (literal b) = (all is_printable s ≡ false) × (as_text (octets b) ≡ s)
