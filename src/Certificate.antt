-- ===== src/Certificate.antt =====
-- The names of a server's certificate (app/src/mail/socket.ts, certificateNames and certificateMatchesHost).
pub mod Names
pub mod Given
mod Tests
use crypt_mail.Prelude.{
  ℕ, Bool, false, ◌&&◌, ◌||◌, not, Option, none, some, List, [], ◌∷◌, leb, ◌==◌, if◌then◌else◌,
  filter, any, all, Text, codes, text_eq, trim, starts_with, is_empty, Locale,
}

abbrev pub given_name : Option Text → List Text
given_name none = []
given_name (some name) = if is_empty name then [] else name ∷ []

abbrev pub names_or_nil : Option (List Text) → List Text
names_or_nil none = []
names_or_nil (some names) = names

abbrev pub names_or_common : Option Text → List Text → List Text
names_or_common common_name [] = given_name common_name
names_or_common common_name (n ∷ names) = n ∷ names

-- The DNS names where there are any, else the common name.
unfoldable pub certificate_names : Option Text → Option (List Text) → List Text
certificate_names common_name dns_names =
    names_or_common common_name (filter (λ n. not (is_empty (trim n))) (names_or_nil dns_names))

-- s.replace(/\.$/, '')
unfoldable pub strip_dot : Text → Text
strip_dot [] = []
strip_dot (c ∷ []) = if c == 46 then [] else c ∷ []
strip_dot (c ∷ d ∷ s) = c ∷ strip_dot (d ∷ s)

unfoldable pub plain_name : Locale → Text → Text
plain_name loc s = strip_dot (loc.lower (trim s))

abbrev pub has_code : ℕ → Text → Bool
has_code code s = any (λ c. c == code) s

-- /^[\d.]+$/.test(s) || s.includes(':'), for a text that is not empty
abbrev pub is_address : Text → Bool
is_address s = all (λ c. (leb 48 c && leb c 57) || c == 46) s || has_code 58 s

abbrev pub and_front : ℕ → Option Text → Option Text
and_front c none = none
and_front c (some s) = some (c ∷ s)

-- s.slice(0, -t.length) where s.endsWith(t), for a text t that is not empty
unfoldable pub before_suffix : Text → Text → Option Text
before_suffix [] t = if is_empty t then some [] else none
before_suffix (c ∷ s) t =
    let rest = and_front c (before_suffix s t) in if text_eq (c ∷ s) t then some [] else rest

abbrev pub is_label : Option Text → Bool
is_label none = false
is_label (some label) = not (is_empty label) && not (has_code 46 label)

-- A name of the form `*.…` on a host of another name.
abbrev pub wildcard_matches : Text → Text → Bool
wildcard_matches [] host = false
wildcard_matches (c ∷ suffix) host =
    starts_with (c ∷ suffix) (codes "*.")
    && not (is_address host)
    && is_label (before_suffix host suffix)

abbrev pub names_match : Text → Text → Bool
names_match name host =
    not (is_empty name || is_empty host) && (text_eq name host || wildcard_matches name host)

unfoldable pub certificate_matches_host : Locale → Option Text → Text → Bool
certificate_matches_host loc none host = false
certificate_matches_host loc (some name) host =
    not (is_empty name) && names_match (plain_name loc name) (plain_name loc host)

-- Whether a host is accepted for what its certificate says (app/src/mail/tcpSocket.ts, verifyPeer).
unfoldable pub accepts_host : Locale → Option Text → Option (List Text) → Text → Bool
accepts_host loc common_name dns_names host =
    any (λ name. certificate_matches_host loc (some name) host)
      (certificate_names common_name dns_names)
