-- ===== src/Mbox/Quoting.antt =====
-- Quoting is undone by the reader of the format, who takes one `>` off every line of `>`s before `From `.
use crypt_mail.Prelude.{
  ℕ, ◌≡◌, refl, sym, ap, ◌∙◌, subst, inl, inr, Bool, true, false, ◌&&◌, ◌||◌, [], ◌∷◌, arith, ◌==◌,
  if◌then◌else◌, ==_iff, Bool-cases, &&-eq-true, All, Text, starts_with,
}
use crypt_mail.Mbox.{
  newlines_from, normalise_newlines, is_line_terminator, from_mark, is_from_line, quote_from,
  quote_from_lines,
}

-- The reader (mboxrd): at the start of a line, a `>` before `>*From ` is dropped. Its lines end at LF.
abbrev pub unquote_from : Bool → Text → Text
unquote_from at_start [] = []
unquote_from at_start (c ∷ s) =
    let rest = unquote_from (c == 10) s in
    if at_start && (c == 62 && is_from_line s) then rest else c ∷ rest

-- No character ends a line but LF.
abbrev pub HasPlainLines : Text → Type 0
HasPlainLines = All (λ c. is_line_terminator c ≡ (c == 10))

-- Within a line, quoting changes nothing that the tests for `From ` see.
pub starts_with-quote_from :
    (s w : Text)
    → All (λ y. is_line_terminator y ≡ false) w
    → starts_with (quote_from false s) w ≡ starts_with s w
unfolding starts_with quote_from
starts_with-quote_from [] [] h = refl
starts_with-quote_from [] (y ∷ w) h = refl
starts_with-quote_from (c ∷ s) [] h = refl
starts_with-quote_from (c ∷ s) (y ∷ w) (h, hs) = elim (Bool-cases (c == y)) [
  | inl e ↦ simp e (
      ap (λ b. starts_with (quote_from b s) w)
        (subst (λ x. is_line_terminator x ≡ false) (sym ((==_iff c y).0 e)) h)
      ∙ starts_with-quote_from s w hs)
  | inr n ↦ simp n
]

pub mark_within_line : All (λ y. is_line_terminator y ≡ false) from_mark
mark_within_line = (refl, (refl, (refl, (refl, (refl, tt)))))

mark_within_lines : (c : ℕ) → (c == 62) ≡ true → is_line_terminator c ≡ false
mark_within_lines c e = subst (λ x. is_line_terminator x ≡ false) (sym ((==_iff c 62).0 e)) refl

is_from_line-quote_from : (s : Text) → is_from_line (quote_from false s) ≡ is_from_line s
unfolding is_from_line quote_from
is_from_line-quote_from [] = refl
is_from_line-quote_from (c ∷ s) =
    ap (λ b. b || (c == 62 && is_from_line (quote_from (is_line_terminator c) s)))
      (starts_with-quote_from (c ∷ s) from_mark mark_within_line)
    ∙ ap (λ b. starts_with (c ∷ s) from_mark || b)
        (elim (Bool-cases (c == 62)) [
          | inl e ↦ simp e (
              ap (λ b. is_from_line (quote_from b s)) (mark_within_lines c e)
              ∙ is_from_line-quote_from s)
          | inr n ↦ simp n
        ])

-- The clauses of both, where their tests are decided.
pub quote_from-marked :
    (at_start : Bool) (c : ℕ) (s : Text)
    → (at_start && is_from_line (c ∷ s)) ≡ true
    → quote_from at_start (c ∷ s) ≡ 62 ∷ c ∷ quote_from (is_line_terminator c) s
unfolding quote_from
quote_from-marked at_start c s h = simp h

pub quote_from-plain :
    (at_start : Bool) (c : ℕ) (s : Text)
    → (at_start && is_from_line (c ∷ s)) ≡ false
    → quote_from at_start (c ∷ s) ≡ c ∷ quote_from (is_line_terminator c) s
unfolding quote_from
quote_from-plain at_start c s h = simp h

unquote_from-marked :
    (t : Text) → is_from_line t ≡ true → unquote_from true (62 ∷ t) ≡ unquote_from false t
unquote_from-marked t h = simp h

unquote_from-plain :
    (at_start : Bool) (c : ℕ) (t : Text)
    → (at_start && (c == 62 && is_from_line t)) ≡ false
    → unquote_from at_start (c ∷ t) ≡ c ∷ unquote_from (c == 10) t
unquote_from-plain at_start c t h = simp h

-- A line that begins with `>*From ` begins with no line end.
from_line_within : (c : ℕ) (s : Text) → is_from_line (c ∷ s) ≡ true → is_line_terminator c ≡ false
unfolding is_from_line starts_with
from_line_within c s h = elim (Bool-cases (c == 62)) [
  | inl e ↦ mark_within_lines c e
  | inr n ↦ elim (Bool-cases (c == 70)) [
    | inl f ↦ subst (λ x. is_line_terminator x ≡ false) (sym ((==_iff c 70).0 f)) refl
    | inr m ↦ absurd (cc (simp (n, m) at h))
  ]
]

is_from_line-own :
    (c : ℕ) (s : Text)
    → is_line_terminator c ≡ false
    → is_from_line (c ∷ quote_from (is_line_terminator c) s) ≡ is_from_line (c ∷ s)
unfolding quote_from
is_from_line-own c s n = is_from_line-quote_from (c ∷ s)

plain_stays_plain :
    (at_start : Bool) (c : ℕ) (s : Text)
    → (at_start && is_from_line (c ∷ s)) ≡ false
    → (at_start && (c == 62 && is_from_line (quote_from (is_line_terminator c) s))) ≡ false
unfolding is_from_line
plain_stays_plain at_start c s h = elim (Bool-cases (c == 62)) [
  | inr n ↦ simp n (ground arith)
  | inl e ↦ simp e (
      ap (λ b. at_start && is_from_line (quote_from b s)) (mark_within_lines c e)
      ∙ ap (λ b. at_start && b) (is_from_line-quote_from s)
      ∙ ground (arith, simp e at h))
]

unquote_from-quote_from :
    (at_start : Bool) (s : Text)
    → HasPlainLines s
    → unquote_from at_start (quote_from at_start s) ≡ s
unfolding quote_from
unquote_from-quote_from at_start [] p = refl
unquote_from-quote_from at_start (c ∷ s) (p, ps) =
    elim (Bool-cases (at_start && is_from_line (c ∷ s))) [
      | inl e ↦
          let (starts, marked) = &&-eq-true at_start (is_from_line (c ∷ s)) e in
          let within = from_line_within c s marked in
          ap (unquote_from at_start) (quote_from-marked at_start c s e)
          ∙ ap (λ b. unquote_from b (62 ∷ c ∷ quote_from (is_line_terminator c) s)) starts
          ∙ unquote_from-marked (c ∷ quote_from (is_line_terminator c) s)
              (is_from_line-own c s within ∙ marked)
          ∙ unquote_from-plain false c (quote_from (is_line_terminator c) s) refl
          ∙ ap (λ b. c ∷ unquote_from b (quote_from (is_line_terminator c) s)) (sym p)
          ∙ ap (λ t. c ∷ t) (unquote_from-quote_from (is_line_terminator c) s ps)
      | inr n ↦
          ap (unquote_from at_start) (quote_from-plain at_start c s n)
          ∙ unquote_from-plain at_start c (quote_from (is_line_terminator c) s)
              (plain_stays_plain at_start c s n)
          ∙ ap (λ b. c ∷ unquote_from b (quote_from (is_line_terminator c) s)) (sym p)
          ∙ ap (λ t. c ∷ t) (unquote_from-quote_from (is_line_terminator c) s ps)
    ]

abbrev pub is_separator : ℕ → Bool
is_separator c = c == 8232 || c == 8233

newlines_from-HasPlainLines :
    (after_cr : Bool) (raw : Text)
    → All (λ c. is_separator c ≡ false) raw
    → HasPlainLines (newlines_from after_cr raw)
unfolding newlines_from
newlines_from-HasPlainLines after_cr [] p = tt
newlines_from-HasPlainLines after_cr (c ∷ raw) (p, ps) = elim (Bool-cases (c == 13)) [
  | inl e ↦ simp e (refl, newlines_from-HasPlainLines true raw ps)
  | inr n ↦ elim (Bool-cases (after_cr && c == 10)) [
    | inl e ↦ simp (n, e) (newlines_from-HasPlainLines false raw ps)
    | inr m ↦ simp (n, m) (ground (arith, n, p), newlines_from-HasPlainLines false raw ps)
  ]
]

pub normalise_newlines-HasPlainLines :
    (raw : Text) → All (λ c. is_separator c ≡ false) raw → HasPlainLines (normalise_newlines raw)
unfolding normalise_newlines
normalise_newlines-HasPlainLines raw p = newlines_from-HasPlainLines false raw p

-- What is written of a message reads back as the message with its line ends normalised: a reader of the
-- format, who takes one `>` off each line of `>`s before `From `, restores it exactly. This holds for
-- messages without U+2028 and U+2029, at which the code starts a line and a reader does not.
pub quote_from_lines-undone :
    (raw : Text)
    → All (λ c. is_separator c ≡ false) raw
    → unquote_from true (quote_from_lines (normalise_newlines raw)) ≡ normalise_newlines raw
unfolding quote_from_lines
quote_from_lines-undone raw p =
    unquote_from-quote_from true (normalise_newlines raw) (normalise_newlines-HasPlainLines raw p)
