-- ===== src/ImapWire/Reader/Frames.antt =====
-- What a server sends is read as it was meant.
use crypt_mail.Prelude.{
  ℕ, zero, suc, ◌+◌, ◌≤◌, ◌≡◌, refl, ap, ◌∙◌, false, none, List, [], ◌∷◌, ◌++◌, arith, ltb, length,
  All, length-append, append_assoc, Text, Locale,
}
use crypt_mail.ImapWire.{ResponsePart, line, bytes}
use crypt_mail.ImapWire.Responses.{ImapResponse, parse_response}
use crypt_mail.ImapWire.Reader.{
  index_of_crlf, literal_size, ResponseReader, new_reader, literal_round, line_round, round_at,
  round, and_response, after_round, drain, push, continue, done,
}
use crypt_mail.ImapWire.Reader.Rounds.{round-continue, round-done, round_empty}
use crypt_mail.ImapWire.Reader.Chunks.{
  drain_break, drain_enough, push_each, all_bytes, push_each-all_bytes,
}
use crypt_mail.ImapWire.Reader.Wire.{
  Segment, Frame, on_wire, parts_of, wire, IsSegment, IsFrame, index_of_crlf-line, take_front,
  drop_front, drop_line,
}

module _ (loc : Locale) where
  -- The whole literal is there.
  literal_round_whole :
      (segment : Segment) (rest : List ℕ) (parts : List ResponsePart)
      → literal_round loc
          (record { queue = segment.head ++ 13 ∷ 10 ∷ (segment.literal ++ rest); parts = parts })
          (length segment.head)
          (length segment.literal)
        ≡ continue (record {
          queue = rest;
          parts = parts ++ line segment.head ∷ bytes segment.literal ∷ [];
        })
  literal_round_whole segment rest parts =
      let after = segment.literal ++ rest in
      let there : ltb (length (segment.head ++ 13 ∷ 10 ∷ after))
            (length segment.head + 2 + length segment.literal)
          ≡ false =
        ground (
          arith,
          length-append segment.head (13 ∷ 10 ∷ after),
          length-append segment.literal rest,
        ) in
      simp there (
        rw
          (
            drop_line segment.head after,
            take_front segment.head (13 ∷ 10 ∷ after),
            take_front segment.literal rest,
            drop_front segment.literal rest,
          )
          refl)

  round_segment :
      (segment : Segment) (rest : List ℕ) (parts : List ResponsePart)
      → IsSegment segment
      → round loc
          (record { queue = segment.head ++ 13 ∷ 10 ∷ (segment.literal ++ rest); parts = parts })
        ≡ continue (record {
          queue = rest;
          parts = parts ++ line segment.head ∷ bytes segment.literal ∷ [];
        })
  unfolding round
  round_segment segment rest parts (h, k) =
      let after = segment.literal ++ rest in
      let reader : ResponseReader = record {
        queue = segment.head ++ 13 ∷ 10 ∷ after;
        parts = parts;
      } in
      let eol = length segment.head in
      ap (round_at loc reader) (index_of_crlf-line segment.head after h)
      ∙ ap (λ s. line_round loc reader eol (literal_size s))
          (take_front segment.head (13 ∷ 10 ∷ after))
      ∙ ap (line_round loc reader eol) k
      ∙ literal_round_whole segment rest parts

  round_last :
      (last : Text) (rest : List ℕ) (parts : List ResponsePart)
      → index_of_crlf last ≡ none
      → literal_size last ≡ none
      → round loc (record { queue = last ++ 13 ∷ 10 ∷ rest; parts = parts })
        ≡ done (record { queue = rest; parts = [] }) (parse_response loc (parts ++ line last ∷ []))
  unfolding round
  round_last last rest parts h k =
      let reader : ResponseReader = record { queue = last ++ 13 ∷ 10 ∷ rest; parts = parts } in
      ap (round_at loc reader) (index_of_crlf-line last rest h)
      ∙ ap (λ s. line_round loc reader (length last) (literal_size s))
          (take_front last (13 ∷ 10 ∷ rest))
      ∙ ap (line_round loc reader (length last)) k
      ∙ rw (drop_line last rest, take_front last (13 ∷ 10 ∷ rest)) refl

  -- A round of the loop, whatever number of rounds that is enough.
  drain-continue :
      (fuel : ℕ) (reader next : ResponseReader)
      → length reader.queue ≤ fuel
      → round loc reader ≡ continue next
      → (drain loc fuel reader ≡ drain loc fuel next) × (length next.queue ≤ fuel)
  unfolding drain
  drain-continue zero reader next h e =
      absurd (omega (arith, (round-continue loc reader next [] e).1))
  drain-continue (suc fuel) reader next h e =
      let shorter = (round-continue loc reader next [] e).1 in
      (
        ap (after_round loc (λ n. drain loc fuel n) reader) e
            ∙ drain_enough loc fuel (suc fuel) next (omega arith) (omega arith),
        omega arith,
      )

  drain-done :
      (fuel : ℕ) (reader next : ResponseReader) (response : ImapResponse)
      → length reader.queue ≤ fuel
      → round loc reader ≡ done next response
      → (drain loc fuel reader ≡ and_response loc response (drain loc fuel next))
        × (length next.queue ≤ fuel)
  unfolding drain
  drain-done zero reader next response h e =
      absurd (omega (arith, (round-done loc reader next response [] e).1))
  drain-done (suc fuel) reader next response h e =
      let shorter = (round-done loc reader next response [] e).1 in
      (
        ap (after_round loc (λ n. drain loc fuel n) reader) e
            ∙ ap (and_response loc response)
                (drain_enough loc fuel (suc fuel) next (omega arith) (omega arith)),
        omega arith,
      )

  drain_frame :
      (fuel : ℕ) (segments : List Segment) (last : Text) (rest : List ℕ) (parts : List ResponsePart)
      → All IsSegment segments
      → index_of_crlf last ≡ none
      → literal_size last ≡ none
      → length (on_wire segments last rest) ≤ fuel
      → (drain loc fuel (record { queue = on_wire segments last rest; parts = parts })
          ≡ and_response loc
              (parse_response loc (parts ++ parts_of segments last))
              (drain loc fuel (record { queue = rest; parts = [] })))
        × (length rest ≤ fuel)
  drain_frame fuel [] last rest parts h k l enough =
      drain-done fuel (record { queue = last ++ 13 ∷ 10 ∷ rest; parts = parts })
        (record { queue = rest; parts = [] }) (parse_response loc (parts ++ line last ∷ [])) enough
        (round_last last rest parts k l)
  drain_frame fuel (segment ∷ segments) last rest parts (h, hs) k l enough =
      let here = parts ++ line segment.head ∷ bytes segment.literal ∷ [] in
      let later = on_wire segments last rest in
      let (one, fits) =
        drain-continue fuel
          (record { queue = on_wire (segment ∷ segments) last rest; parts = parts })
          (record { queue = later; parts = here }) enough (round_segment segment later parts h) in
      let (others, ends) = drain_frame fuel segments last rest here hs k l fits in
      (
        one
            ∙ others
            ∙ ap
                (λ p.
                  and_response loc (parse_response loc p)
                    (drain loc fuel (record { queue = rest; parts = [] })))
                (append_assoc parts (line segment.head ∷ bytes segment.literal ∷ [])
                  (parts_of segments last)),
        ends,
      )

  abbrev pub responses_of : List Frame → List ImapResponse
  responses_of [] = []
  responses_of (frame ∷ frames) =
      parse_response loc (parts_of frame.segments frame.last) ∷ responses_of frames

  drain-wire :
      (fuel : ℕ) (frames : List Frame)
      → All IsFrame frames
      → length (wire frames) ≤ fuel
      → drain loc fuel (record { queue = wire frames; parts = [] })
        ≡ record { reader = new_reader; responses = responses_of frames }
  drain-wire fuel [] h enough =
      drain_break loc fuel new_reader (round_empty loc new_reader (omega arith))
  drain-wire fuel (frame ∷ frames) (h, hs) enough =
      let (first, fits) =
        drain_frame fuel frame.segments frame.last (wire frames) [] h.0 h.1 h.2 enough in
      first
      ∙ ap (and_response loc (parse_response loc (parts_of frame.segments frame.last)))
          (drain-wire fuel frames hs fits)

  -- What a server sends is read as it was meant, however the connection cuts it: from the bytes of any
  -- responses, in any chunks, the reader gives exactly those responses, each parsed from its own lines and
  -- literals, and holds nothing back. Each line has no CRLF in it, a line before a literal announces its
  -- length, and the line at the end of a response announces none.
  pub push_each-wire :
      (frames : List Frame) (chunks : List (List ℕ))
      → All IsFrame frames
      → all_bytes chunks ≡ wire frames
      → push_each loc new_reader chunks
        ≡ record { reader = new_reader; responses = responses_of frames }
  unfolding push
  push_each-wire frames chunks h same =
      push_each-all_bytes loc chunks
      ∙ ap (push loc new_reader) same
      ∙ drain-wire (length (wire frames)) frames h (omega arith)
