-- ===== src/Mbox/Tests.antt =====
-- The export at a concrete input.
use crypt_mail.Prelude.{◌≡◌, refl, true, Option, none, [], ◌∷◌, length, Text, codes}
use crypt_mail.Mbox.{MboxEntry, normalise_newlines, quote_from_lines, to_mbox}
use crypt_mail.Mbox.Quoting.{unquote_from, quote_from_lines-undone}
use crypt_mail.Mbox.Boundaries.{IsExported, marks, to_mbox-marks}

abbrev quoting_mail : Text
quoting_mail = codes "hi\r\n>From a\r\n"

quote_from_lines-undone_example :
    unquote_from true (quote_from_lines (normalise_newlines quoting_mail))
    ≡ normalise_newlines quoting_mail
quote_from_lines-undone_example = quote_from_lines-undone quoting_mail (
  refl,
  (
    refl,
    (refl, (refl, (refl, (refl, (refl, (refl, (refl, (refl, (refl, (refl, (refl, tt))))))))))),
  ),
)

abbrev short_entry : MboxEntry
short_entry = record { from = none; date = none; raw = codes "From" }

abbrev midnight : Option Text → Text
midnight date = codes "0"

short_entry-IsExported : IsExported midnight short_entry
short_entry-IsExported = (
  (
    refl,
    (
      refl,
      (
        refl,
        (
          refl,
          (
            refl,
            (refl, (refl, (refl, (refl, (refl, (refl, (refl, (refl, (refl, (refl, tt)))))))))),
          ),
        ),
      ),
    ),
  ),
  (refl, (refl, (refl, (refl, tt)))),
)

to_mbox-marks_example :
    marks true (to_mbox midnight (short_entry ∷ short_entry ∷ []))
    ≡ length (short_entry ∷ short_entry ∷ [])
to_mbox-marks_example =
    to_mbox-marks midnight (short_entry ∷ short_entry ∷ [])
      (short_entry-IsExported, (short_entry-IsExported, tt))
