-- ===== src/ImapWire/Reader.antt =====
-- Complete responses cut out of the incoming bytes (app/src/mail/imapWire.ts, ResponseReader). The queue
-- stands here for the bytes that it holds, which is what ByteQueue shows of it.
pub mod Wire
pub mod Rounds
pub mod Chunks
pub mod Frames
use crypt_mail.Prelude.{
  ℕ, zero, suc, ◌+◌, false, ◌&&◌, Option, none, some, List, [], ◌∷◌, ◌++◌, ltb, ◌==◌, if◌then◌else◌,
  length, take, Text, Locale,
}
use crypt_mail.ImapWire.{ResponsePart, line, bytes, is_size}
use crypt_mail.ImapWire.Responses.{ImapResponse, number_of, parse_response}

-- What is left after the first n bytes are taken.
abbrev pub drop : ℕ → List ℕ → List ℕ
drop zero queue = queue
drop (suc n) [] = []
drop (suc n) (b ∷ queue) = drop n queue

abbrev pub next_index : Option ℕ → Option ℕ
next_index none = none
next_index (some n) = some (suc n)

-- indexOfCrlf(), with none for -1
unfoldable pub index_of_crlf : List ℕ → Option ℕ
index_of_crlf [] = none
index_of_crlf (b ∷ []) = none
index_of_crlf (b ∷ d ∷ queue) =
    let rest = index_of_crlf (d ∷ queue) in if b == 13 && d == 10 then some 0 else next_index rest

-- The size in /\{(\d+)\+?\}$/, which can only match at the last brace that opens.
unfoldable pub literal_size : Text → Option ℕ
literal_size [] = none
literal_size (c ∷ s) =
    let rest = literal_size s in if c == 123 && is_size false s then some (number_of 0 s) else rest

pub record ResponseReader : Type 0 where
  pub queue : List ℕ
  pub parts : List ResponsePart

abbrev pub new_reader : ResponseReader
new_reader = record { queue = []; parts = [] }

-- One round of the loop: what it leaves of the reader, and a response that it completes.
pub data Round : Type 0 where
  break : Round
  continue : ResponseReader → Round
  done : ResponseReader → ImapResponse → Round

module _ (loc : Locale) where
  abbrev pub literal_round : ResponseReader → ℕ → ℕ → Round
  literal_round reader eol size =
      if ltb (length reader.queue) (eol + 2 + size)
      then break
      else continue (record {
        queue = drop size (drop (eol + 2) reader.queue);
        parts =
            reader.parts
            ++ line (take eol reader.queue) ∷ bytes (take size (drop (eol + 2) reader.queue)) ∷ [];
      })

  abbrev pub line_round : ResponseReader → ℕ → Option ℕ → Round
  line_round reader eol (some size) = literal_round reader eol size
  line_round reader eol none =
      done (record { queue = drop (eol + 2) reader.queue; parts = [] })
        (parse_response loc (reader.parts ++ line (take eol reader.queue) ∷ []))

  abbrev pub round_at : ResponseReader → Option ℕ → Round
  round_at reader none = break
  round_at reader (some eol) = line_round reader eol (literal_size (take eol reader.queue))

  unfoldable pub round : ResponseReader → Round
  round reader = round_at reader (index_of_crlf reader.queue)

  pub record Pushed : Type 0 where
    pub reader : ResponseReader
    pub responses : List ImapResponse

  abbrev pub and_response : ImapResponse → Pushed → Pushed
  and_response response pushed = record pushed { responses = response ∷ pushed.responses }

  -- The loop after a round, where the rest of the loop is given.
  abbrev pub after_round : (ResponseReader → Pushed) → ResponseReader → Round → Pushed
  after_round again reader break = record { reader = reader; responses = [] }
  after_round again reader (continue next) = again next
  after_round again reader (done next response) = and_response response (again next)

  unfoldable pub drain : ℕ → ResponseReader → Pushed
  drain zero reader = record { reader = reader; responses = [] }
  drain (suc fuel) reader = after_round (λ next. drain fuel next) reader (round reader)

  -- Each round takes two bytes at least, so the length of the queue is enough.
  unfoldable pub push : ResponseReader → List ℕ → Pushed
  push reader chunk =
      drain (length (reader.queue ++ chunk)) (record reader { queue = reader.queue ++ chunk })
