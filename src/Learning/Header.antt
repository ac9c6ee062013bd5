-- ===== src/Learning/Header.antt =====
-- The attributes of an Autocrypt header (app/src/keys/autocrypt.ts, autocryptKeyFrom).
use crypt_mail.Prelude.{
  ℕ, Bool, false, ◌&&◌, ◌||◌, Option, none, some, [], ◌∷◌, leb, ◌==◌, if◌then◌else◌, all, Text,
  codes, trim_start,
}

-- The characters up to the first `;`.
abbrev pub up_to_semicolon : Text → Text
up_to_semicolon [] = []
up_to_semicolon (c ∷ s) = let rest = up_to_semicolon s in if c == 59 then [] else c ∷ rest

-- ([^;]+) at this place
abbrev pub value_here : Text → Option Text
value_here [] = none
value_here (c ∷ s) = if c == 59 then none else some (c ∷ up_to_semicolon s)

abbrev pub or_first : Option Text → Option Text → Option Text
or_first none other = other
or_first (some t) other = some t

-- `mark` here, and what follows it.
abbrev pub after_prefix : Text → Text → Option Text
after_prefix [] s = some s
after_prefix (y ∷ mark) [] = none
after_prefix (y ∷ mark) (c ∷ s) = let rest = after_prefix mark s in if c == y then rest else none

abbrev pub and_value : Option Text → Option Text
and_value none = none
and_value (some s) = value_here s

-- header.match(/(?:^|;)\s*addr=([^;]+)/)?.[1], from the start of an attribute or not.
unfoldable pub addr_in : Bool → Text → Option Text
addr_in at_start [] = none
addr_in at_start (c ∷ s) =
    let rest = addr_in (c == 59) s in
    let here = and_value (after_prefix (codes "addr=") (trim_start (c ∷ s))) in
    if at_start then or_first here rest else rest

abbrev pub lazy_value : Option Text → Option Text
lazy_value none = none
lazy_value (some []) = none
lazy_value (some (c ∷ s)) = some (c ∷ up_to_semicolon s)

-- header.match(/keydata=([\s\S]+?)(?:;|$)/)?.[1]
unfoldable pub keydata_in : Text → Option Text
keydata_in [] = none
keydata_in (c ∷ s) =
    let rest = keydata_in s in or_first (lazy_value (after_prefix (codes "keydata=") (c ∷ s))) rest

abbrev pub is_base64_text : Text → Bool
is_base64_text [] = false
is_base64_text (c ∷ s) = all is_base64_unit (c ∷ s)
  where
    is_base64_unit : ℕ → Bool
    is_base64_unit c =
        (leb 65 c && leb c 90)
        || (leb 97 c && leb c 122)
        || (leb 48 c && leb c 57)
        || c == 43
        || c == 47
        || c == 61
