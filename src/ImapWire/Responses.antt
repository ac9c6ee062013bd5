-- ===== src/ImapWire/Responses.antt =====
-- One framed response (app/src/mail/imapWire.ts, parseResponse): its tag, its keyword and its arguments.
use crypt_mail.Prelude.{
  ℕ, ◌+◌, ◌-◌, ◌*◌, Bool, true, false, ◌&&◌, Option, none, some, List, [], ◌∷◌, ◌==◌, if◌then◌else◌,
  all, Text, codes, text_eq, has_text, is_empty, is_space, not, Locale,
}
use crypt_mail.ImapWire.{
  ImapValues, end, ResponsePart, line, bytes, Piece, and_raw, is_digit, tokenize,
}

pub record ImapResponse : Type 0 where
  pub tag : Text
  pub kind : Text
  pub num : Option ℕ
  pub code : Option Text
  pub text : Text
  pub values : ImapValues

abbrev pub status_kinds : List Text
status_kinds = codes "OK" ∷ codes "NO" ∷ codes "BAD" ∷ codes "BYE" ∷ codes "PREAUTH" ∷ []

-- What stands before the first of a character and after it; without one, all stands before it.
unfoldable pub cut_at : ℕ → Text → Piece
cut_at mark [] = record { raw = []; rest = [] }
cut_at mark (c ∷ s) =
    let more = and_raw c (cut_at mark s) in
    if c == mark then record { raw = []; rest = s } else more

unfoldable pub take_word : Text → Piece
take_word s = cut_at 32 s

-- /^\d+$/
abbrev pub is_number : Text → Bool
is_number s = not (is_empty s) && all is_digit s

-- Number(s), for digits, with those that came before.
unfoldable pub number_of : ℕ → Text → ℕ
number_of before [] = before
number_of before (c ∷ s) =
    let more = number_of (before * 10 + (c - 48)) s in if is_digit c then more else before

-- /^\[([^\]]*)\]\s?/
pub record Coded : Type 0 where
  pub code : Option Text
  pub text : Text

abbrev pub drop_space : Text → Text
drop_space [] = []
drop_space (c ∷ s) = if is_space c then s else c ∷ s

abbrev pub has_mark : ℕ → Text → Bool
has_mark mark [] = false
has_mark mark (c ∷ s) = let more = has_mark mark s in if c == mark then true else more

unfoldable pub split_code : Text → Coded
split_code [] = record { code = none; text = [] }
split_code (c ∷ s) =
    if c == 91 && has_mark 93 s
    then (let piece = cut_at 93 s in record { code = some piece.raw; text = drop_space piece.rest })
    else record { code = none; text = c ∷ s }

abbrev pub first_line : List ResponsePart → Text
first_line [] = []
first_line (line s ∷ parts) = s
first_line (bytes b ∷ parts) = []

abbrev pub later_parts : List ResponsePart → List ResponsePart
later_parts [] = []
later_parts (part ∷ parts) = parts

-- The number before the keyword, where there is one, and the rest from the keyword on.
pub record Numbered : Type 0 where
  pub num : Option ℕ
  pub word : Piece

abbrev pub numbered : Piece → Numbered
numbered word =
    if is_number word.raw
    then record { num = some (number_of 0 word.raw); word = take_word word.rest }
    else record { num = none; word = word }

unfoldable pub parse_response : Locale → List ResponsePart → ImapResponse
parse_response loc parts = parsed (take_word (first_line parts))
  where
    coded : Text → Text → Option ℕ → Coded → ImapResponse
    coded tag kind num split = record {
      tag = tag;
      kind = kind;
      num = num;
      code = split.code;
      text = split.text;
      values = end;
    }

    answered : Text → Text → Option ℕ → Text → ImapResponse
    answered tag kind num rest =
        if has_text kind status_kinds then coded tag kind num (split_code rest) else record {
          tag = tag;
          kind = kind;
          num = num;
          code = none;
          text = [];
          values = tokenize loc (line rest ∷ later_parts parts);
        }

    parsed : Piece → ImapResponse
    parsed piece =
        if text_eq piece.raw (codes "+")
        then coded piece.raw (codes "CONTINUE") none (split_code piece.rest)
        else (let start = numbered (take_word piece.rest) in
            answered piece.raw (loc.upper start.word.raw) start.num start.word.rest)
