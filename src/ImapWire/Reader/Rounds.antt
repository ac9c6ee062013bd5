-- ===== src/ImapWire/Reader/Rounds.antt =====
-- A round of the loop of the reader, and the bytes that come later.
use crypt_mail.Prelude.{
  ℕ, zero, suc, ◌+◌, ◌≤◌, ◌<◌, ◌≡◌, refl, sym, ap, ◌∙◌, subst, ◌⊎◌, inl, inr, false, ◌&&◌, Option,
  none, some, List, [], ◌∷◌, ◌++◌, arith, ltb, ◌==◌, Bool-cases, Option-cases, some_injective,
  length, take, length-append, Locale,
}
use crypt_mail.ImapWire.Responses.{ImapResponse}
use crypt_mail.ImapWire.Reader.{
  drop, next_index, index_of_crlf, literal_size, ResponseReader, Round, literal_round, line_round,
  round_at, round, break, continue, done,
}

-- What comes after the bytes that are taken stays.
take-append : (n : ℕ) (q b : List ℕ) → n ≤ length q → take n (q ++ b) ≡ take n q
take-append zero q b h = refl
take-append (suc n) [] b h = absurd (omega arith)
take-append (suc n) (x ∷ q) b h = ap (λ l. x ∷ l) (take-append n q b (omega arith))

drop-append : (n : ℕ) (q b : List ℕ) → n ≤ length q → drop n (q ++ b) ≡ drop n q ++ b
drop-append zero q b h = refl
drop-append (suc n) [] b h = absurd (omega arith)
drop-append (suc n) (x ∷ q) b h = drop-append n q b (omega arith)

pub length-drop : (n : ℕ) (q : List ℕ) → n ≤ length q → length (drop n q) + n ≡ length q
length-drop zero q h = omega arith
length-drop (suc n) [] h = absurd (omega arith)
length-drop (suc n) (x ∷ q) h = omega (arith, length-drop n q (omega arith))

next_index-some :
    (o : Option ℕ) (n : ℕ) → next_index o ≡ some n → (m : ℕ) × (o ≡ some m) × (n ≡ suc m)
next_index-some none n h = absurd (cc h)
next_index-some (some m) n h = (m, refl, sym (some_injective (suc m) n h))

-- A line end that is there is found at the same place, and its two bytes are in the queue.
index_of_crlf-append :
    (q b : List ℕ) (n : ℕ)
    → index_of_crlf q ≡ some n
    → (index_of_crlf (q ++ b) ≡ some n) × (n + 2 ≤ length q)
unfolding index_of_crlf
index_of_crlf-append [] b n h = absurd (cc h)
index_of_crlf-append (x ∷ []) b n h = absurd (cc h)
index_of_crlf-append (x ∷ y ∷ q) b n h = elim (Bool-cases (x == 13 && y == 10)) [
  | inl e ↦
      let zeros = some_injective 0 n (simp e at h) in simp e (ap some zeros, omega (arith, zeros))
  | inr m ↦
      let (k, found, is_suc) = next_index-some (index_of_crlf (y ∷ q)) n (simp m at h) in
      let later = index_of_crlf-append (y ∷ q) b k found in
      simp m (ap next_index later.0 ∙ ap some (sym is_suc), omega (arith, later.1, is_suc))
]

abbrev pub with_more : List ℕ → ResponseReader → ResponseReader
with_more b reader = record reader { queue = reader.queue ++ b }

module _ (loc : Locale) where
  -- A round that does not break is the same with more bytes, and takes some.
  abbrev Extends : Round → ResponseReader → List ℕ → Round → Type 0
  Extends whole reader b break = Unit
  Extends whole reader b (continue next) =
      (whole ≡ continue (with_more b next)) × (length next.queue < length reader.queue)
  Extends whole reader b (done next response) =
      (whole ≡ done (with_more b next) response) × (length next.queue < length reader.queue)

  literal_round-Extends :
      (reader : ResponseReader) (b : List ℕ) (eol size : ℕ)
      → eol + 2 ≤ length reader.queue
      → Extends
          (literal_round loc (with_more b reader) eol size)
          reader
          b
          (literal_round loc reader eol size)
  literal_round-Extends reader b eol size h =
      elim (Bool-cases (ltb (length reader.queue) (eol + 2 + size))) [
        | inl e ↦ simp e tt
        | inr n ↦
            let after = drop (eol + 2) reader.queue in
            let left = length-drop (eol + 2) reader.queue h in
            let long : size ≤ length after = ground (arith, left) in
            let still : ltb (length (reader.queue ++ b)) (eol + 2 + size) ≡ false =
              ground (arith, length-append reader.queue b) in
            simp (n, still)
              (
                rw
                    (
                      drop-append (eol + 2) reader.queue b h,
                      take-append eol reader.queue b (omega arith),
                      drop-append size after b long,
                      take-append size after b long,
                    )
                    refl,
                omega (arith, left, length-drop size after long),
              )
      ]

  line_round-Extends :
      (reader : ResponseReader) (b : List ℕ) (eol : ℕ) (size : Option ℕ)
      → eol + 2 ≤ length reader.queue
      → Extends
          (line_round loc (with_more b reader) eol size)
          reader
          b
          (line_round loc reader eol size)
  line_round-Extends reader b eol (some size) h = literal_round-Extends reader b eol size h
  line_round-Extends reader b eol none h = (
    rw (drop-append (eol + 2) reader.queue b h, take-append eol reader.queue b (omega arith)) refl,
    omega (arith, length-drop (eol + 2) reader.queue h),
  )

  round-Extends :
      (reader : ResponseReader) (b : List ℕ)
      → Extends (round loc (with_more b reader)) reader b (round loc reader)
  unfolding round
  round-Extends reader b = elim (Option-cases (index_of_crlf reader.queue)) [
    | inl e ↦
        subst (Extends (round loc (with_more b reader)) reader b) (sym (ap (round_at loc reader) e))
          tt
    | inr (eol, e) ↦
        let (found, fits) = index_of_crlf-append reader.queue b eol e in
        let whole =
          ap (round_at loc (with_more b reader)) found
          ∙ ap (λ s. line_round loc (with_more b reader) eol (literal_size s))
              (take-append eol reader.queue b (omega arith)) in
        let size = literal_size (take eol reader.queue) in
        subst (Extends (round loc (with_more b reader)) reader b) (sym (ap (round_at loc reader) e))
          (subst (λ w. Extends w reader b (line_round loc reader eol size)) (sym whole)
            (line_round-Extends reader b eol size fits))
  ]

  pub Round-cases :
      (r : Round)
      → (r ≡ break)
        ⊎ ((next : ResponseReader) × (r ≡ continue next))
        ⊎ ((next : ResponseReader) × (response : ImapResponse) × (r ≡ done next response))
  Round-cases break = inl refl
  Round-cases (continue next) = inr (inl (next, refl))
  Round-cases (done next response) = inr (inr (next, response, refl))

  -- What a round that goes on does, read off its outcome.
  pub round-continue :
      (reader next : ResponseReader) (b : List ℕ)
      → round loc reader ≡ continue next
      → (round loc (with_more b reader) ≡ continue (with_more b next))
        × (length next.queue < length reader.queue)
  round-continue reader next b e =
      subst (Extends (round loc (with_more b reader)) reader b) e (round-Extends reader b)

  pub round-done :
      (reader next : ResponseReader) (response : ImapResponse) (b : List ℕ)
      → round loc reader ≡ done next response
      → (round loc (with_more b reader) ≡ done (with_more b next) response)
        × (length next.queue < length reader.queue)
  round-done reader next response b e =
      subst (Extends (round loc (with_more b reader)) reader b) e (round-Extends reader b)

  pub round_empty : (reader : ResponseReader) → length reader.queue ≤ 0 → round loc reader ≡ break
  round_empty reader h = elim (Round-cases (round loc reader)) [
    | inl e ↦ e
    | inr (inl (next, e)) ↦ absurd (omega (arith, (round-continue reader next [] e).1))
    | inr (inr (next, response, e)) ↦
        absurd (omega (arith, (round-done reader next response [] e).1))
  ]
