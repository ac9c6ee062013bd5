-- ===== src/ImapWire/Reader/Wire.antt =====
-- Responses on the wire: lines that end at CRLF, and literals after the lines that announce them.
use crypt_mail.Prelude.{
  ℕ, suc, ◌+◌, ◌≡◌, refl, ap, ◌∙◌, inl, inr, false, ◌&&◌, Option, none, some, List, [], ◌∷◌, ◌++◌,
  arith, ◌==◌, Bool-cases, length, take, All, Text,
}
use crypt_mail.ImapWire.{ResponsePart, line, bytes}
use crypt_mail.ImapWire.Reader.{drop, next_index, index_of_crlf, literal_size}

-- A line that announces a literal, with its bytes.
pub record Segment : Type 0 where
  pub head : Text
  pub literal : List ℕ

-- A response: what has literals, and the line at its end.
pub record Frame : Type 0 where
  pub segments : List Segment
  pub last : Text

abbrev pub on_wire : List Segment → Text → List ℕ → List ℕ
on_wire [] last rest = last ++ 13 ∷ 10 ∷ rest
on_wire (segment ∷ segments) last rest =
    segment.head ++ 13 ∷ 10 ∷ (segment.literal ++ on_wire segments last rest)

abbrev pub parts_of : List Segment → Text → List ResponsePart
parts_of [] last = line last ∷ []
parts_of (segment ∷ segments) last =
    line segment.head ∷ bytes segment.literal ∷ parts_of segments last

abbrev pub wire : List Frame → List ℕ
wire [] = []
wire (frame ∷ frames) = on_wire frame.segments frame.last (wire frames)

-- No line has a CRLF in it; a line announces the length of the literal after it, and the last one none.
abbrev pub IsSegment : Segment → Type 0
IsSegment segment =
    (index_of_crlf segment.head ≡ none)
    × (literal_size segment.head ≡ some (length segment.literal))

abbrev pub IsFrame : Frame → Type 0
IsFrame frame =
    All IsSegment frame.segments
    × (index_of_crlf frame.last ≡ none)
    × (literal_size frame.last ≡ none)

pub next_index-none : (o : Option ℕ) → next_index o ≡ none → o ≡ none
next_index-none none h = refl
next_index-none (some n) h = absurd (cc h)

pub index_of_crlf-line :
    (l : Text) (rest : List ℕ)
    → index_of_crlf l ≡ none
    → index_of_crlf (l ++ 13 ∷ 10 ∷ rest) ≡ some (length l)
unfolding index_of_crlf
index_of_crlf-line [] rest h = refl
index_of_crlf-line (x ∷ []) rest h =
    let apart : (x == 13 && 13 == 10) ≡ false = ground arith in simp apart refl
index_of_crlf-line (x ∷ y ∷ l) rest h = elim (Bool-cases (x == 13 && y == 10)) [
  | inl e ↦ absurd (cc (simp e at h))
  | inr n ↦ simp n (
      ap next_index
        (index_of_crlf-line (y ∷ l) rest (next_index-none (index_of_crlf (y ∷ l)) (simp n at h))))
]

-- Exactly what stands in front is taken.
pub take_front : (l rest : List ℕ) → take (length l) (l ++ rest) ≡ l
take_front [] rest = take_none rest
  where
    take_none : (rest : List ℕ) → take 0 rest ≡ []
    take_none rest = refl
take_front (x ∷ l) rest = ap (λ t. x ∷ t) (take_front l rest)

pub drop_front : (l rest : List ℕ) → drop (length l) (l ++ rest) ≡ rest
drop_front [] rest = refl
drop_front (x ∷ l) rest = drop_front l rest

pub drop_line : (l rest : List ℕ) → drop (length l + 2) (l ++ 13 ∷ 10 ∷ rest) ≡ rest
drop_line [] rest = refl
drop_line (x ∷ l) rest =
    let longer : suc (length l) + 2 ≡ suc (length l + 2) = omega arith in
    ap (λ n. drop n (x ∷ (l ++ 13 ∷ 10 ∷ rest))) longer ∙ drop_line l rest
