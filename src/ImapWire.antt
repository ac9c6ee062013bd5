-- ===== src/ImapWire.antt =====
-- The arguments of IMAP on the wire (app/src/mail/imapWire.ts): tokenize, asText and astring. A part of a
-- response is a line or the bytes of a literal; an open list is the values that it has so far.
pub mod Arguments
pub mod Enough
pub mod Responses
pub mod UidSet
pub mod Reader
mod Tests
use crypt_mail.Prelude.{
  ℕ, zero, suc, ◌-◌, Bool, true, false, ◌&&◌, ◌||◌, not, List, [], ◌∷◌, ◌++◌, leb, ◌==◌,
  if◌then◌else◌, any, all, map, length, ◌%◌, Text, codes, text_eq, is_empty, Locale,
}
use crypt_mail.Base64.Utf8.{utf8_to_bytes, bytes_to_utf8}

mutual
  pub data ImapValue : Type 0 where
    word : Text → ImapValue
    octets : List ℕ → ImapValue
    nothing : ImapValue
    nested : ImapValues → ImapValue

  pub data ImapValues : Type 0 where
    end : ImapValues
    value : ImapValue → ImapValues → ImapValues

pub data ResponsePart : Type 0 where
  line : Text → ResponsePart
  bytes : List ℕ → ResponsePart

abbrev pub push_value : ImapValues → ImapValue → ImapValues
push_value end v = value v end
push_value (value w values) v = value w (push_value values v)

-- The stack: the list at its top, and those below it, without the lists that they hold open.
pub record Stack : Type 0 where
  pub top : ImapValues
  pub below : List ImapValues

abbrev pub push_top : ImapValue → Stack → Stack
push_top v stack = record stack { top = push_value stack.top v }

abbrev pub open_list : Stack → Stack
open_list stack = record { top = end; below = stack.top ∷ stack.below }

abbrev pub close_list : Stack → Stack
close_list stack = close stack.below stack
  where
    close : List ImapValues → Stack → Stack
    close [] stack = stack
    close (outer ∷ below) stack = record {
      top = push_value outer (nested stack.top);
      below = below;
    }

-- The root, with every list that is still open.
abbrev pub root_of : List ImapValues → ImapValues → ImapValues
root_of [] top = top
root_of (outer ∷ below) top = root_of below (push_value outer (nested top))

-- What was read of a line, and the rest of it.
pub record Piece : Type 0 where
  pub raw : Text
  pub rest : Text

abbrev pub and_raw : ℕ → Piece → Piece
and_raw c piece = record piece { raw = c ∷ piece.raw }

-- Up to the closing quote, where a backslash takes the next character as it is.
unfoldable pub quoted_piece : Bool → Text → Piece
quoted_piece escaped [] = record { raw = []; rest = [] }
quoted_piece escaped (c ∷ s) =
    let plain = and_raw c (quoted_piece false s) in
    let after = quoted_piece true s in
    if escaped
    then plain
    else if c == 34
    then record { raw = []; rest = s }
    else if c == 92 && not (is_empty s)
    then after
    else plain

-- [, ] and what ends an atom outside of brackets.
abbrev pub depth_after : ℕ → ℕ → ℕ
depth_after c depth = if c == 91 then suc depth else if c == 93 then depth - 1 else depth

abbrev pub ends_atom : ℕ → Bool
ends_atom c = c == 32 || c == 40 || c == 41

unfoldable pub atom_piece : ℕ → Text → Piece
atom_piece depth [] = record { raw = []; rest = [] }
atom_piece depth (c ∷ s) =
    let more = and_raw c (atom_piece (depth_after c depth) s) in
    if depth == 0 && ends_atom c then record { raw = []; rest = c ∷ s } else more

-- /^\{\d+\+?\}$/, after the brace and with a digit or not.
abbrev pub is_digit : ℕ → Bool
is_digit c = leb 48 c && leb c 57

unfoldable pub is_size : Bool → Text → Bool
is_size digits [] = false
is_size digits (c ∷ s) =
    let more = is_size true s in
    (digits && text_eq (c ∷ s) (codes "}"))
    || (digits && text_eq (c ∷ s) (codes "+}"))
    || (is_digit c && more)

unfoldable pub latin1_to_utf8 : Text → Text
latin1_to_utf8 raw =
    if any (λ c. leb 128 c && leb c 255) raw then bytes_to_utf8 (map (λ c. c % 256) raw) else raw

unfoldable pub atom_value : Locale → Text → ImapValue
atom_value loc atom = if text_eq (loc.upper atom) (codes "NIL") then nothing else word atom

-- One round of the loop over a line: the stack after it, and what is left of the line.
pub record Step : Type 0 where
  pub stack : Stack
  pub left : Text

unfoldable pub step : Locale → ℕ → Text → Stack → Step
step loc c s stack =
    if c == 32
    then record { stack = stack; left = s }
    else if c == 40
    then record { stack = open_list stack; left = s }
    else if c == 41
    then record { stack = close_list stack; left = s }
    else if c == 34
    then (let piece = quoted_piece false s in
        record { stack = push_top (word (latin1_to_utf8 piece.raw)) stack; left = piece.rest })
    else if c == 123 && is_size false s
    then record { stack = stack; left = [] }
    else (let piece = atom_piece 0 (c ∷ s) in
        record { stack = push_top (atom_value loc piece.raw) stack; left = piece.rest })

unfoldable pub tokenize_line : Locale → ℕ → Text → Stack → Stack
tokenize_line loc zero s stack = stack
tokenize_line loc (suc fuel) [] stack = stack
tokenize_line loc (suc fuel) (c ∷ s) stack =
    let next = step loc c s stack in tokenize_line loc fuel next.left next.stack

unfoldable pub tokenize_part : Locale → ResponsePart → Stack → Stack
tokenize_part loc (line s) stack = tokenize_line loc (length s) s stack
tokenize_part loc (bytes b) stack = push_top (octets b) stack

unfoldable pub tokenize_parts : Locale → List ResponsePart → Stack → Stack
tokenize_parts loc [] stack = stack
tokenize_parts loc (part ∷ parts) stack = tokenize_parts loc parts (tokenize_part loc part stack)

unfoldable pub tokenize : Locale → List ResponsePart → ImapValues
tokenize loc parts = root (tokenize_parts loc parts (record { top = end; below = [] }))
  where
    root : Stack → ImapValues
    root stack = root_of stack.below stack.top

unfoldable pub as_text : ImapValue → Text
as_text (word s) = s
as_text (octets b) = bytes_to_utf8 b
as_text nothing = []
as_text (nested values) = []

-- An argument of a command.
pub data CommandPart : Type 0 where
  written : Text → CommandPart
  literal : List ℕ → CommandPart

abbrev pub is_printable : ℕ → Bool
is_printable c = leb 32 c && leb c 126

unfoldable pub escape : Text → Text
escape [] = []
escape (c ∷ s) = let rest = escape s in if c == 92 || c == 34 then 92 ∷ c ∷ rest else c ∷ rest

unfoldable pub astring : Text → CommandPart
astring s =
    if all is_printable s then written (34 ∷ (escape s ++ 34 ∷ [])) else literal (utf8_to_bytes s)
