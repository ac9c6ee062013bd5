-- ===== src/Certificate/Names.antt =====
-- Which hosts a certificate's name is for.
use crypt_mail.Prelude.{
  ℕ, ◌≡◌, refl, sym, ap, ◌∙◌, ◌↔◌, ◌⊎◌, inl, inr, Bool, true, false, ◌&&◌, ◌||◌, not, Option, none,
  some, List, [], ◌∷◌, ◌++◌, arith, Bool-cases, &&-eq-true, some_injective, length, any,
  length-append, In, Text, codes, text_eq, text_eq_iff, text_eq_refl, text_eq_ne, starts_with,
  is_empty, Locale,
}
use crypt_mail.Certificate.{
  certificate_names, plain_name, has_code, is_address, and_front, before_suffix, is_label,
  wildcard_matches, names_match, certificate_matches_host, accepts_host,
}
use crypt_mail.Certificate.Given.{IsNameOf, certificate_names-IsNameOf}

-- A wildcard stands for exactly one label: what stands before the first dot, and is not empty.
abbrev pub IsWildcardFor : Text → Text → Type 0
IsWildcardFor name host =
    (label : Text) × (domain : Text) × (name ≡ 42 ∷ 46 ∷ domain)
    × (host ≡ label ++ 46 ∷ domain)
    × (is_empty label ≡ false)
    × (has_code 46 label ≡ false)
    × (is_address host ≡ false)

abbrev pub IsNamed : Text → Text → Type 0
IsNamed name host =
    (is_empty name ≡ false) × (is_empty host ≡ false) × ((name ≡ host) ⊎ IsWildcardFor name host)

and_front-some :
    (c : ℕ) (o : Option Text) (l : Text)
    → and_front c o ≡ some l
    → (m : Text) × (o ≡ some m) × (l ≡ c ∷ m)
and_front-some c none l h = absurd (cc h)
and_front-some c (some m) l h = (m, refl, sym (some_injective (c ∷ m) l h))

-- What stands before a suffix, exactly.
before_suffix-some : (s t l : Text) → before_suffix s t ≡ some l → s ≡ l ++ t
unfolding before_suffix
before_suffix-some [] [] l h = ap (λ m. m ++ []) (some_injective [] l h)
before_suffix-some [] (x ∷ t) l h = absurd (cc h)
before_suffix-some (c ∷ s) t l h = elim (Bool-cases (text_eq (c ∷ s) t)) [
  | inl e ↦ (text_eq_iff (c ∷ s) t).0 e ∙ ap (λ m. m ++ t) (some_injective [] l (simp e at h))
  | inr n ↦
      let (m, found, same) = and_front-some c (before_suffix s t) l (simp n at h) in
      ap (λ r. c ∷ r) (before_suffix-some s t m found) ∙ ap (λ r. r ++ t) (sym same)
]

longer_differs : (c : ℕ) (l t : Text) → text_eq (c ∷ (l ++ t)) t ≡ false
longer_differs c l t =
    text_eq_ne (c ∷ (l ++ t)) t (λ e. absurd (omega (arith, ap length e, length-append l t)))

before_suffix-append : (l t : Text) → before_suffix (l ++ t) t ≡ some l
unfolding before_suffix
before_suffix-append [] [] = refl
before_suffix-append [] (x ∷ t) = simp (text_eq_refl (x ∷ t)) refl
before_suffix-append (c ∷ l) t =
    simp (longer_differs c l t) (ap (and_front c) (before_suffix-append l t))

wildcard_start :
    (c d : ℕ) (s : Text) → starts_with (c ∷ d ∷ s) (codes "*.") ≡ true → (c ≡ 42) × (d ≡ 46)
unfolding starts_with
wildcard_start c d s h = (ground arith, ground arith)

no_lone_star : (c : ℕ) → ¬ (starts_with (c ∷ []) (codes "*.") ≡ true)
unfolding starts_with
no_lone_star c h = ground arith

is_label-some :
    (o : Option Text)
    → is_label o ≡ true
    → (label : Text) × (o ≡ some label) × (is_empty label ≡ false) × (has_code 46 label ≡ false)
is_label-some none h = absurd (cc h)
is_label-some (some label) h = (label, refl, ground arith, ground arith)

wildcard_found :
    (c d : ℕ) (domain host : Text)
    → (c ≡ 42) × (d ≡ 46)
    → is_address host ≡ false
    → (label : Text) × (before_suffix host (d ∷ domain) ≡ some label)
      × (is_empty label ≡ false)
      × (has_code 46 label ≡ false)
    → IsWildcardFor (c ∷ d ∷ domain) host
wildcard_found c d domain host (star, dot) no_address (label, cut, some_label, one_label) = (
  label,
  domain,
  ap (λ x. x ∷ d ∷ domain) star ∙ ap (λ x. 42 ∷ x ∷ domain) dot,
  before_suffix-some host (d ∷ domain) label cut ∙ ap (λ x. label ++ x ∷ domain) dot,
  some_label,
  one_label,
  no_address,
)

wildcard_matches-IsWildcardFor :
    (name host : Text) → wildcard_matches name host ≡ true → IsWildcardFor name host
wildcard_matches-IsWildcardFor [] host h = absurd (cc h)
wildcard_matches-IsWildcardFor (c ∷ []) host h =
    let start : starts_with (c ∷ []) (codes "*.") ≡ true = ground arith in
    absurd (no_lone_star c start)
wildcard_matches-IsWildcardFor (c ∷ d ∷ domain) host h =
    let start : starts_with (c ∷ d ∷ domain) (codes "*.") ≡ true = ground arith in
    let labelled : is_label (before_suffix host (d ∷ domain)) ≡ true = ground arith in
    let no_address : is_address host ≡ false = ground arith in
    wildcard_found c d domain host (wildcard_start c d domain start) no_address
      (is_label-some (before_suffix host (d ∷ domain)) labelled)

wildcard_parts :
    (label domain host : Text)
    → host ≡ label ++ 46 ∷ domain
    → is_empty label ≡ false
    → has_code 46 label ≡ false
    → is_address host ≡ false
    → wildcard_matches (42 ∷ 46 ∷ domain) host ≡ true
unfolding starts_with
wildcard_parts label domain host is_host some_label one_label no_address =
    let cut : before_suffix host (46 ∷ domain) ≡ some label =
      ap (λ h. before_suffix h (46 ∷ domain)) is_host ∙ before_suffix-append label (46 ∷ domain) in
    simp (cut, some_label, one_label, no_address) refl

IsWildcardFor-wildcard_matches :
    (name host : Text) → IsWildcardFor name host → wildcard_matches name host ≡ true
IsWildcardFor-wildcard_matches name host
      (label, domain, is_name, is_host, some_label, one_label, no_address) =
    ap (λ n. wildcard_matches n host) is_name
    ∙ wildcard_parts label domain host is_host some_label one_label no_address

names_match-IsNamed : (name host : Text) → (names_match name host ≡ true) ↔ IsNamed name host
names_match-IsNamed name host = (to, from)
  where
    to : names_match name host ≡ true → IsNamed name host
    to h =
        let (given, matches) =
          &&-eq-true (not (is_empty name || is_empty host))
            (text_eq name host || wildcard_matches name host) h in
        (
          ground arith,
          ground arith,
          elim (Bool-cases (text_eq name host)) [
            | inl e ↦ inl ((text_eq_iff name host).0 e)
            | inr n ↦ inr (wildcard_matches-IsWildcardFor name host (ground arith))
          ],
        )

    from : IsNamed name host → names_match name host ≡ true
    from (some_name, some_host, inl e) =
        simp (some_name, some_host, (text_eq_iff name host).1 e) refl
    from (some_name, some_host, inr w) =
        simp (some_name, some_host, IsWildcardFor-wildcard_matches name host w) (ground arith)

-- One name of a certificate.
abbrev IsGiven : Locale → Text → Text → Type 0
IsGiven loc host name =
    (is_empty name ≡ false) × IsNamed (plain_name loc name) (plain_name loc host)

certificate_matches_host-IsGiven :
    (loc : Locale) (host name : Text)
    → (certificate_matches_host loc (some name) host ≡ true) ↔ IsGiven loc host name
unfolding certificate_matches_host
certificate_matches_host-IsGiven loc host name = (to, from)
  where
    names :
        (names_match (plain_name loc name) (plain_name loc host) ≡ true)
        ↔ IsNamed (plain_name loc name) (plain_name loc host)
    names = names_match-IsNamed (plain_name loc name) (plain_name loc host)

    to :
        (not (is_empty name) && names_match (plain_name loc name) (plain_name loc host)) ≡ true
        → (is_empty name ≡ false) × IsNamed (plain_name loc name) (plain_name loc host)
    to h = (ground arith, names.0 (ground arith))

    from :
        (is_empty name ≡ false) × IsNamed (plain_name loc name) (plain_name loc host)
        → (not (is_empty name) && names_match (plain_name loc name) (plain_name loc host)) ≡ true
    from (given, named) = simp given (names.1 named)

any-In : (p : Text → Bool) (xs : List Text) → any p xs ≡ true → (x : Text) × In x xs × (p x ≡ true)
any-In p [] h = absurd (cc h)
any-In p (x ∷ xs) h = elim (Bool-cases (p x)) [
  | inl e ↦ (x, inl refl, e)
  | inr n ↦ later (any-In p xs (ground arith))
]
  where
    later : (y : Text) × In y xs × (p y ≡ true) → (y : Text) × In y (x ∷ xs) × (p y ≡ true)
    later (y, i, e) = (y, inr i, e)

In-any : (p : Text → Bool) (xs : List Text) (x : Text) → In x xs → p x ≡ true → any p xs ≡ true
In-any p [] x i h = absurd i
In-any p (y ∷ xs) x (inl e) h = let here : p y ≡ true = ap p (sym e) ∙ h in simp here refl
In-any p (y ∷ xs) x (inr i) h = ground (arith, In-any p xs x i h)

-- A host is accepted exactly when one of the certificate's names is for it: the names are the DNS names, where
-- there is one that is not blank, and otherwise the common name. A name is for a host when, trimmed, in lower
-- case and without a dot at the end, both are not empty and the name is the host, or it is `*.` before what
-- follows the first label of the host: that label is one, is not empty, and the host is no address.
pub accepts_host_iff :
    (loc : Locale) (common_name : Option Text) (dns_names : Option (List Text)) (host : Text)
    → (accepts_host loc common_name dns_names host ≡ true) ↔ (
        (name : Text) × IsNameOf common_name dns_names name
        × (is_empty name ≡ false)
        × IsNamed (plain_name loc name) (plain_name loc host))
unfolding accepts_host
accepts_host_iff loc common_name dns_names host = (to, from)
  where
    test : Text → Bool
    test name = certificate_matches_host loc (some name) host

    to :
        any test (certificate_names common_name dns_names) ≡ true
        → (name : Text) × IsNameOf common_name dns_names name
          × (is_empty name ≡ false)
          × IsNamed (plain_name loc name) (plain_name loc host)
    to h =
        let (name, i, t) = any-In test (certificate_names common_name dns_names) h in
        let (some_name, named) = (certificate_matches_host-IsGiven loc host name).0 t in
        (
          name,
          (certificate_names-IsNameOf common_name dns_names name some_name).0 i,
          some_name,
          named,
        )

    from :
        (name : Text) × IsNameOf common_name dns_names name
          × (is_empty name ≡ false)
          × IsNamed (plain_name loc name) (plain_name loc host)
        → any test (certificate_names common_name dns_names) ≡ true
    from (name, i, some_name, named) =
        In-any test (certificate_names common_name dns_names) name
          ((certificate_names-IsNameOf common_name dns_names name some_name).1 i)
          ((certificate_matches_host-IsGiven loc host name).1 (some_name, named))
