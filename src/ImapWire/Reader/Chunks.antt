-- ===== src/ImapWire/Reader/Chunks.antt =====
-- The responses are the same, however the connection cuts their bytes.
use crypt_mail.Prelude.{
  ℕ, zero, suc, ◌≤◌, ◌≡◌, refl, sym, ap, ◌∙◌, inl, inr, List, [], ◌∷◌, ◌++◌, arith, length,
  length-append, append_assoc, append_nil, Locale,
}
use crypt_mail.ImapWire.Responses.{ImapResponse}
use crypt_mail.ImapWire.Reader.{
  ResponseReader, new_reader, round, Pushed, and_response, drain, push, break,
}
use crypt_mail.ImapWire.Reader.Rounds.{
  with_more, Round-cases, round-continue, round-done, round_empty,
}

abbrev pub all_bytes : List (List ℕ) → List ℕ
all_bytes [] = []
all_bytes (chunk ∷ chunks) = chunk ++ all_bytes chunks

module _ (loc : Locale) where
  pub drain_break :
      (fuel : ℕ) (reader : ResponseReader)
      → round loc reader ≡ break
      → drain loc fuel reader ≡ record { reader = reader; responses = [] }
  unfolding drain
  drain_break zero reader e = refl
  drain_break (suc fuel) reader e = simp e refl

  -- The length of the queue is enough rounds, and more do nothing.
  pub drain_enough :
      (n m : ℕ) (reader : ResponseReader)
      → length reader.queue ≤ n
      → length reader.queue ≤ m
      → drain loc n reader ≡ drain loc m reader
  unfolding drain
  drain_enough zero m reader h k = sym (drain_break m reader (round_empty loc reader h))
  drain_enough (suc n) zero reader h k = drain_break (suc n) reader (round_empty loc reader k)
  drain_enough (suc n) (suc m) reader h k = elim (Round-cases loc (round loc reader)) [
    | inl e ↦ simp e refl
    | inr (inl (next, e)) ↦
        let shorter = (round-continue loc reader next [] e).1 in
        simp e (drain_enough n m next (omega arith) (omega arith))
    | inr (inr (next, response, e)) ↦
        let shorter = (round-done loc reader next response [] e).1 in
        simp e (ap (and_response loc response) (drain_enough n m next (omega arith) (omega arith)))
  ]

  -- What stays is no longer than the queue was, and has no further response in it.
  drain-IsDrained :
      (n : ℕ) (reader : ResponseReader)
      → length reader.queue ≤ n
      → (length (drain loc n reader).reader.queue ≤ length reader.queue)
        × (round loc (drain loc n reader).reader ≡ break)
  unfolding drain
  drain-IsDrained zero reader h = (omega arith, round_empty loc reader h)
  drain-IsDrained (suc n) reader h = elim (Round-cases loc (round loc reader)) [
    | inl e ↦ simp e (omega arith, refl)
    | inr (inl (next, e)) ↦
        let shorter = (round-continue loc reader next [] e).1 in
        let rest = drain-IsDrained n next (omega arith) in simp e (omega (arith, rest.0), rest.1)
    | inr (inr (next, response, e)) ↦
        let shorter = (round-done loc reader next response [] e).1 in
        let rest = drain-IsDrained n next (omega arith) in simp e (omega (arith, rest.0), rest.1)
  ]

  abbrev pub joined : List ImapResponse → Pushed loc → Pushed loc
  joined before pushed = record pushed { responses = before ++ pushed.responses }

  -- A last round more changes nothing, once no response is left in what stays.
  one_more_round :
      (n m : ℕ) (next : ResponseReader) (b : List ℕ)
      → length next.queue ≤ n
      → length (next.queue ++ b) ≤ m
      → drain loc m (with_more b next)
        ≡ joined (drain loc n next).responses (drain loc m (with_more b (drain loc n next).reader))
      → drain loc m (with_more b next)
        ≡ joined
            (drain loc n next).responses
            (drain loc (suc m) (with_more b (drain loc n next).reader))
  one_more_round n m next b h k same =
      let within = (drain-IsDrained n next h).0 in
      let last = (drain loc n next).reader in
      let fits : length (last.queue ++ b) ≤ m =
        omega (arith, length-append last.queue b, length-append next.queue b) in
      same
      ∙ ap (joined (drain loc n next).responses)
          (drain_enough m (suc m) (with_more b last) fits (omega (arith, fits)))

  -- Responses that are read before more bytes come are the first ones that are read of all the bytes.
  drain-append :
      (n m : ℕ) (reader : ResponseReader) (b : List ℕ)
      → length reader.queue ≤ n
      → length (reader.queue ++ b) ≤ m
      → drain loc m (with_more b reader)
        ≡ joined
            (drain loc n reader).responses
            (drain loc m (with_more b (drain loc n reader).reader))
  unfolding drain
  drain-append zero m reader b h k = refl
  drain-append (suc n) zero reader b h k =
      simp (round_empty loc reader (omega (arith, length-append reader.queue b))) refl
  drain-append (suc n) (suc m) reader b h k = elim (Round-cases loc (round loc reader)) [
    | inl e ↦ simp e refl
    | inr (inl (next, e)) ↦
        let (longer, shorter) = round-continue loc reader next b e in
        simp (e, longer)
          (one_more_round n m next b (omega arith)
            (omega (arith, length-append reader.queue b, length-append next.queue b))
            (drain-append n m next b (omega arith)
              (omega (arith, length-append reader.queue b, length-append next.queue b))))
    | inr (inr (next, response, e)) ↦
        let (longer, shorter) = round-done loc reader next response b e in
        simp (e, longer)
          (ap (and_response loc response) (
            one_more_round n m next b (omega arith)
              (omega (arith, length-append reader.queue b, length-append next.queue b))
              (drain-append n m next b (omega arith)
                (omega (arith, length-append reader.queue b, length-append next.queue b)))))
  ]

  -- A connection that brings the bytes chunk by chunk.
  abbrev pub push_each : ResponseReader → List (List ℕ) → Pushed loc
  push_each reader [] = record { reader = reader; responses = [] }
  push_each reader (chunk ∷ chunks) =
      let pushed = push loc reader chunk in joined pushed.responses (push_each pushed.reader chunks)

  push-append :
      (reader : ResponseReader) (a b : List ℕ)
      → push loc reader (a ++ b)
        ≡ joined (push loc reader a).responses (push loc (push loc reader a).reader b)
  unfolding push
  push-append reader a b =
      let first = drain loc (length (reader.queue ++ a)) (with_more a reader) in
      let within =
        (drain-IsDrained (length (reader.queue ++ a)) (with_more a reader) (omega arith)).0 in
      ap (λ q. drain loc (length q) (record reader { queue = q }))
        (sym (append_assoc reader.queue a b))
      ∙ drain-append (length (reader.queue ++ a)) (length ((reader.queue ++ a) ++ b))
          (with_more a reader) b (omega arith) (omega arith)
      ∙ ap (joined first.responses) (
          drain_enough (length ((reader.queue ++ a) ++ b)) (length (first.reader.queue ++ b))
            (with_more b first.reader)
            (omega (arith, length-append first.reader.queue b, length-append (reader.queue ++ a) b))
            (omega arith))

  push_each-drained :
      (reader : ResponseReader) (chunks : List (List ℕ))
      → round loc reader ≡ break
      → push_each reader chunks ≡ push loc reader (all_bytes chunks)
  unfolding push
  push_each-drained reader [] h =
      sym (drain_break (length (reader.queue ++ [])) reader h)
      ∙ ap (λ q. drain loc (length (reader.queue ++ [])) (record reader { queue = q }))
          (sym (append_nil reader.queue))
  push_each-drained reader (chunk ∷ chunks) h =
      let pushed = push loc reader chunk in
      ap (joined pushed.responses) (
        push_each-drained pushed.reader chunks
          (drain-IsDrained (length (reader.queue ++ chunk)) (with_more chunk reader)
            (omega arith)).1)
      ∙ sym (push-append reader chunk (all_bytes chunks))

  -- The reader does not see how the connection cuts the bytes: fed chunk by chunk, whatever the chunks, it
  -- gives the responses in the order and of the content that it gives when all the bytes come at once, and
  -- keeps the same bytes and parts for the response that is not complete yet.
  pub push_each-all_bytes :
      (chunks : List (List ℕ))
      → push_each new_reader chunks ≡ push loc new_reader (all_bytes chunks)
  push_each-all_bytes chunks =
      push_each-drained new_reader chunks (round_empty loc new_reader (omega arith))
