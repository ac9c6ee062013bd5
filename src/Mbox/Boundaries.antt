-- ===== src/Mbox/Boundaries.antt =====
-- Where the messages of a file begin: at the lines that begin with `From `, of which quoting leaves none.
use crypt_mail.Prelude.{
  ℕ, suc, ◌+◌, ◌≡◌, refl, sym, ap, ◌∙◌, inl, inr, Bool, true, false, ◌&&◌, ◌||◌, Option, List, [],
  ◌∷◌, ◌++◌, arith, ◌==◌, if◌then◌else◌, Bool-cases, length, All, append_assoc, Text, starts_with,
}
use crypt_mail.Mbox.{
  MboxEntry, normalise_newlines, is_line_terminator, from_mark, is_from_line, quote_from,
  quote_from_lines, ends_with_newline, sender_of, quoted_body, entry_to_mbox, to_mbox,
}
use crypt_mail.Mbox.Quoting.{
  HasPlainLines, is_separator, starts_with-quote_from, mark_within_line, quote_from-marked,
  quote_from-plain, normalise_newlines-HasPlainLines,
}

abbrev count_if : Bool → ℕ
count_if true = 1
count_if false = 0

-- The number of lines that begin with `From `, as a reader finds them.
abbrev pub marks : Bool → Text → ℕ
marks at_start [] = 0
marks at_start (c ∷ s) = count_if (at_start && starts_with (c ∷ s) from_mark) + marks (c == 10) s

abbrev pub IsOneLine : Text → Type 0
IsOneLine = All (λ c. (c == 10) ≡ false)

-- A line end cuts off what follows it.
starts_with-append_line :
    (s t w : Text) → IsOneLine w → starts_with (s ++ 10 ∷ t) w ≡ starts_with s w
unfolding starts_with
starts_with-append_line [] t [] h = refl
starts_with-append_line [] t (y ∷ w) (h, hs) = ground (arith, h)
starts_with-append_line (c ∷ s) t [] h = refl
starts_with-append_line (c ∷ s) t (y ∷ w) (h, hs) =
    ap (λ b. c == y && b) (starts_with-append_line s t w hs)

mark-IsOneLine : IsOneLine from_mark
mark-IsOneLine = (refl, (refl, (refl, (refl, (refl, tt)))))

-- The tests at the start of a line that a line end closes see that line alone.
mark_here :
    (at_start : Bool) (c : ℕ) (s t : Text)
    → count_if (at_start && starts_with (c ∷ s ++ 10 ∷ t) from_mark)
      ≡ count_if (at_start && starts_with (c ∷ s) from_mark)
mark_here at_start c s t =
    ap (λ b. count_if (at_start && b)) (starts_with-append_line (c ∷ s) t from_mark mark-IsOneLine)

other_unmarked :
    (at_start : Bool) (c : ℕ) (t : Text)
    → (c == 70) ≡ false
    → count_if (at_start && starts_with (c ∷ t) from_mark) ≡ 0
unfolding starts_with
other_unmarked true c t n = simp n
other_unmarked false c t n = refl

marks-append :
    (at_start : Bool) (s t : Text)
    → marks at_start (s ++ 10 ∷ t) ≡ marks at_start (s ++ 10 ∷ []) + marks true t
marks-append at_start [] t =
    omega (arith, other_unmarked at_start 10 t refl, other_unmarked at_start 10 [] refl)
marks-append at_start (c ∷ s) t =
    omega (arith, mark_here at_start c s t, mark_here at_start c s [], marks-append (c == 10) s t)

unquoted_unmarked :
    (at_start : Bool) (c : ℕ) (s : Text)
    → (at_start && is_from_line (c ∷ s)) ≡ false
    → count_if (at_start && starts_with (c ∷ quote_from (is_line_terminator c) s) from_mark) ≡ 0
unfolding quote_from is_from_line
unquoted_unmarked at_start c s h =
    ap (λ b. count_if (at_start && b)) (starts_with-quote_from (c ∷ s) from_mark mark_within_line)
    ∙ ap count_if
        (none_marked at_start (starts_with (c ∷ s) from_mark) (c == 62 && is_from_line s) h)
  where
    none_marked : (a b d : Bool) → (a && (b || d)) ≡ false → (a && b) ≡ false
    none_marked a b d h = ground (arith, h)

marks-quote_from :
    (at_start : Bool) (s : Text)
    → HasPlainLines s
    → marks at_start (quote_from at_start s ++ 10 ∷ []) ≡ 0
unfolding quote_from
marks-quote_from at_start [] p = omega (arith, other_unmarked at_start 10 [] refl)
marks-quote_from at_start (c ∷ s) (p, ps) =
    let rest = quote_from (is_line_terminator c) s in
    let quiet =
      ap (λ b. marks b (rest ++ 10 ∷ [])) (sym p) ∙ marks-quote_from (is_line_terminator c) s ps in
    elim (Bool-cases (at_start && is_from_line (c ∷ s))) [
      | inl e ↦
          ap (λ t. marks at_start (t ++ 10 ∷ [])) (quote_from-marked at_start c s e)
          ∙ omega (arith, other_unmarked at_start 62 (c ∷ rest ++ 10 ∷ []) refl, quiet)
      | inr n ↦
          ap (λ t. marks at_start (t ++ 10 ∷ [])) (quote_from-plain at_start c s n)
          ∙ omega (arith, mark_here at_start c rest [], unquoted_unmarked at_start c s n, quiet)
    ]

-- The rest of a line counts nothing.
marks-within : (s t : Text) → IsOneLine s → marks false (s ++ 10 ∷ t) ≡ marks true t
marks-within [] t h = omega arith
marks-within (c ∷ s) t (h, hs) =
    omega (arith, ap (λ b. marks b (s ++ 10 ∷ t)) h, marks-within s t hs)

marks-envelope :
    (line t : Text)
    → IsOneLine line
    → marks true ((from_mark ++ line) ++ 10 ∷ t) ≡ suc (marks true t)
unfolding starts_with
marks-envelope line t h = omega (arith, marks-within line t h)

body_closed :
    (ended : Bool) (body more : Text)
    → marks true (body ++ 10 ∷ []) ≡ 0
    → marks true ((body ++ ((if ended then [] else 10 ∷ []) ++ 10 ∷ [])) ++ more) ≡ marks true more
body_closed true body more h =
    ap (marks true) (append_assoc body (10 ∷ []) more)
    ∙ omega (arith, h, marks-append true body more)
body_closed false body more h =
    ap (marks true) (append_assoc body (10 ∷ 10 ∷ []) more)
    ∙ omega (arith, h, marks-append true body (10 ∷ more), other_unmarked true 10 more refl)

module _ (asctime : Option Text → Text) where
  -- An entry of the export: its envelope is one line, and its text has no separators that are not LF.
  abbrev pub IsExported : MboxEntry → Type 0
  IsExported entry =
      IsOneLine (sender_of entry.from ++ (32 ∷ asctime entry.date))
      × All (λ c. is_separator c ≡ false) entry.raw

  entry_to_mbox-marks :
      (entry : MboxEntry) (more : Text)
      → IsExported entry
      → marks true (entry_to_mbox asctime entry ++ more) ≡ suc (marks true more)
  unfolding entry_to_mbox quoted_body quote_from_lines
  entry_to_mbox-marks entry more (h, p) =
      let line = sender_of entry.from ++ (32 ∷ asctime entry.date) in
      let body = quoted_body asctime entry in
      let trail = if ends_with_newline body then [] else 10 ∷ [] in
      let quiet =
        marks-quote_from true (normalise_newlines entry.raw)
          (normalise_newlines-HasPlainLines entry.raw p) in
      ap (marks true) (append_assoc (from_mark ++ line) (10 ∷ (body ++ (trail ++ 10 ∷ []))) more)
      ∙ marks-envelope line ((body ++ (trail ++ 10 ∷ [])) ++ more) h
      ∙ ap suc (body_closed (ends_with_newline body) body more quiet)

-- A reader that starts a message at each line that begins with `From ` finds as many messages in the file
-- as were written into it. The envelope lines hold no line end, and the messages neither U+2028 nor U+2029.
pub to_mbox-marks :
    (asctime : Option Text → Text) (entries : List MboxEntry)
    → All (IsExported asctime) entries
    → marks true (to_mbox asctime entries) ≡ length entries
unfolding to_mbox
to_mbox-marks asctime [] h = refl
to_mbox-marks asctime (entry ∷ entries) (h, hs) =
    entry_to_mbox-marks asctime entry (to_mbox asctime entries) h
    ∙ ap suc (to_mbox-marks asctime entries hs)
