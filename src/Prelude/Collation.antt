-- ===== src/Prelude/Collation.antt =====
-- What the engine's locale tables decide, as a parameter: lower case, and the collation order.
use mathlib.Core.Bool.{Bool}
use crypt_mail.Prelude.Strings.{Text, trim}
use crypt_mail.Prelude.Sort.{IsPreorder}

pub record Locale : Type 0 where
  -- s.toLowerCase()
  pub lower : Text → Text
  -- s.toUpperCase()
  pub upper : Text → Text
  -- a.localeCompare(b) <= 0
  pub le : Text → Text → Bool
  -- a.localeCompare(b, undefined, { sensitivity: 'base' }) <= 0
  pub base_le : Text → Text → Bool

-- email.trim().toLowerCase()
unfoldable pub canonical : Locale → Text → Text
canonical loc email = loc.lower (trim email)

-- What collation promises (ECMA-402: a consistent comparator on all strings).
pub record IsCollation (loc : Locale) : Type 0 where
  pub order : IsPreorder loc.le
  pub base_order : IsPreorder loc.base_le
