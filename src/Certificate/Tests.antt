-- ===== src/Certificate/Tests.antt =====
-- Names of certificates at concrete inputs.
use crypt_mail.Prelude.{
  ◌≡◌, refl, ◌↔◌, true, false, Option, none, some, List, [], ◌∷◌, Text, codes, text_eq, trim,
  starts_with, is_empty,
}
use crypt_mail.Certificate.{
  certificate_names, strip_dot, plain_name, before_suffix, certificate_matches_host, accepts_host,
}
use crypt_mail.Certificate.Given.{IsNameOf}
use crypt_mail.Certificate.Names.{IsNamed, accepts_host_iff}
use crypt_mail.Samples.{ascii}

abbrev dns_names : Option (List Text)
dns_names = some (codes "*.X.org" ∷ [])

accepts_host_iff_example : (accepts_host ascii none dns_names (codes "a.x.org") ≡ true) ↔ (
    (name : Text) × IsNameOf none dns_names name
    × (is_empty name ≡ false)
    × IsNamed (plain_name ascii name) (plain_name ascii (codes "a.x.org")))
accepts_host_iff_example = accepts_host_iff ascii none dns_names (codes "a.x.org")

one_label_test :
    certificate_matches_host ascii (some (codes "*.X.org.")) (codes "imap.x.org") ≡ true
unfolding certificate_matches_host plain_name strip_dot trim text_eq starts_with before_suffix
one_label_test = refl

two_labels_test :
    certificate_matches_host ascii (some (codes "*.x.org")) (codes "a.b.x.org") ≡ false
unfolding certificate_matches_host plain_name strip_dot trim text_eq starts_with before_suffix
two_labels_test = refl

-- A name without letters is passed over, and the common name is read only without DNS names.
dns_names_test :
    certificate_names (some (codes "x")) (some (codes " " ∷ codes "y" ∷ [])) ≡ codes "y" ∷ []
unfolding certificate_names trim
dns_names_test = refl
