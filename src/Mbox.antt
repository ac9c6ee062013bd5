-- ===== src/Mbox.antt =====
-- A mailbox as an mbox file (app/src/mail/mbox.ts), in the variant mboxrd.
pub mod Quoting
pub mod Boundaries
mod Tests
use crypt_mail.Prelude.{
  ℕ, Bool, true, false, ◌&&◌, ◌||◌, Option, none, some, List, [], ◌∷◌, ◌++◌, ◌==◌, if◌then◌else◌,
  Text, codes, trim, starts_with, or_text,
}

pub record MboxEntry : Type 0 where
  pub from : Option Text
  pub date : Option Text
  pub raw : Text

abbrev pub unknown_sender : Text
unknown_sender = codes "MAILER-DAEMON"

-- raw.replace(/\r\n?/g, '\n'), from a place after a carriage return or not.
unfoldable pub newlines_from : Bool → Text → Text
newlines_from after_cr [] = []
newlines_from after_cr (c ∷ s) =
    let after = newlines_from true s in
    let rest = newlines_from false s in
    if c == 13 then 10 ∷ after else if after_cr && c == 10 then rest else c ∷ rest

unfoldable pub normalise_newlines : Text → Text
normalise_newlines raw = newlines_from false raw

-- `^` with the flag m stands after each of these.
abbrev pub is_line_terminator : ℕ → Bool
is_line_terminator c = c == 10 || c == 13 || c == 8232 || c == 8233

abbrev pub from_mark : Text
from_mark = codes "From "

-- >*From
unfoldable pub is_from_line : Text → Bool
is_from_line [] = false
is_from_line (c ∷ s) =
    let rest = is_from_line s in starts_with (c ∷ s) from_mark || (c == 62 && rest)

-- body.replace(/^(>*From )/gm, '>$1'), from the start of a line or not.
unfoldable pub quote_from : Bool → Text → Text
quote_from at_start [] = []
quote_from at_start (c ∷ s) =
    let rest = c ∷ quote_from (is_line_terminator c) s in
    if at_start && is_from_line (c ∷ s) then 62 ∷ rest else rest

unfoldable pub quote_from_lines : Text → Text
quote_from_lines body = quote_from true body

abbrev pub ends_with_newline : Text → Bool
ends_with_newline [] = false
ends_with_newline (c ∷ []) = c == 10
ends_with_newline (c ∷ d ∷ s) = ends_with_newline (d ∷ s)

abbrev pub sender_of : Option Text → Text
sender_of none = unknown_sender
sender_of (some from) = or_text (trim from) unknown_sender

-- `asctime` reads the calendar, and is given.
module _ (asctime : Option Text → Text) where
  abbrev pub envelope_line : MboxEntry → Text
  envelope_line entry = from_mark ++ (sender_of entry.from ++ (32 ∷ asctime entry.date))

  unfoldable pub quoted_body : MboxEntry → Text
  quoted_body entry = quote_from_lines (normalise_newlines entry.raw)

  unfoldable pub entry_to_mbox : MboxEntry → Text
  entry_to_mbox entry =
      let body = quoted_body entry in
      envelope_line entry
      ++ (10 ∷ (body ++ ((if ends_with_newline body then [] else 10 ∷ []) ++ 10 ∷ [])))

  unfoldable pub to_mbox : List MboxEntry → Text
  to_mbox [] = []
  to_mbox (entry ∷ entries) = entry_to_mbox entry ++ to_mbox entries
