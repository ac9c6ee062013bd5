-- ===== src/Certificate/Given.antt =====
-- Which names a certificate gives (app/src/mail/socket.ts, certificateNames).
use crypt_mail.Prelude.{
  ◌≡◌, refl, sym, ap, subst, ◌↔◌, ◌⊎◌, inl, inr, Bool, true, false, not, Option, none, some, List,
  [], ◌∷◌, arith, Bool-cases, some_injective, filter, In, In-filter, filter-In, trim, Text,
  is_empty,
}
use crypt_mail.Certificate.{given_name, names_or_common, certificate_names}

-- The names of a certificate: its DNS names that are not blank, and the common name where it has none.
abbrev pub IsNameOf : Option Text → Option (List Text) → Text → Type 0
IsNameOf common_name none name = common_name ≡ some name
IsNameOf common_name (some dns_names) name =
    (In name dns_names × (is_empty (trim name) ≡ false))
    ⊎ (((n : Text) → In n dns_names → is_empty (trim n) ≡ true) × (common_name ≡ some name))

given_name-some :
    (common_name : Option Text) (name : Text)
    → is_empty name ≡ false
    → In name (given_name common_name) ↔ (common_name ≡ some name)
given_name-some none name h = (absurd, (λ e. absurd (cc e)))
given_name-some (some common) name h = elim (Bool-cases (is_empty common)) [
  | inl e ↦ (
    (λ i. absurd (simp e at i)),
    (λ s. absurd (cc (h, e, ap is_empty (some_injective common name s)))),
  )
  | inr n ↦ (
    (λ i. elim (simp n at i) [ inl s ↦ ap some (sym s) | inr later ↦ absurd later ]),
    (λ s. simp n (inl (sym (some_injective common name s)))),
  )
]

names_or_common-In :
    (common_name : Option Text) (names : List Text) (name : Text)
    → In name (names_or_common common_name names)
      ↔ (In name names ⊎ ((names ≡ []) × In name (given_name common_name)))
names_or_common-In common_name [] name =
    ((λ i. inr (refl, i)), (λ h. elim h [ inl i ↦ absurd i | inr c ↦ c.1 ]))
names_or_common-In common_name (n ∷ names) name =
    ((λ i. inl i), (λ h. elim h [ inl i ↦ i | inr c ↦ absurd (cc (c.0)) ]))

filter_none :
    (p : Text → Bool) (xs : List Text) → (filter p xs ≡ []) ↔ ((x : Text) → In x xs → p x ≡ false)
filter_none p xs = (to, from xs)
  where
    to : filter p xs ≡ [] → (x : Text) → In x xs → p x ≡ false
    to e x i = elim (Bool-cases (p x)) [
      | inl h ↦ absurd (subst (In x) e (filter-In p x xs i h))
      | inr n ↦ n
    ]

    from : (xs : List Text) → ((x : Text) → In x xs → p x ≡ false) → filter p xs ≡ []
    from [] h = refl
    from (x ∷ xs) h = rw (h x (inl refl)) (from xs (λ y i. h y (inr i)))

pub certificate_names-IsNameOf :
    (common_name : Option Text) (dns_names : Option (List Text)) (name : Text)
    → is_empty name ≡ false
    → In name (certificate_names common_name dns_names) ↔ IsNameOf common_name dns_names name
unfolding certificate_names
certificate_names-IsNameOf common_name none name h = given_name-some common_name name h
certificate_names-IsNameOf common_name (some dns_names) name h = (to, from)
  where
    shown : Text → Bool
    shown n = not (is_empty (trim n))

    either : In name (names_or_common common_name (filter shown dns_names)) ↔ (
        In name (filter shown dns_names)
        ⊎ ((filter shown dns_names ≡ []) × In name (given_name common_name)))
    either = names_or_common-In common_name (filter shown dns_names) name

    to :
        In name (names_or_common common_name (filter shown dns_names))
        → IsNameOf common_name (some dns_names) name
    to i = elim (either.0 i) [
      | inl named ↦
          let (held, not_blank) = In-filter shown name dns_names named in inl (held, ground arith)
      | inr common ↦ inr (
        (λ n i. let blank = (filter_none shown dns_names).0 common.0 n i in ground arith),
        (given_name-some common_name name h).0 common.1,
      )
    ]

    from :
        IsNameOf common_name (some dns_names) name
        → In name (names_or_common common_name (filter shown dns_names))
    from (inl (held, not_blank)) =
        either.1 (inl (filter-In shown name dns_names held (rw not_blank)))
    from (inr (blank, common)) = either.1 (
        inr (
          (filter_none shown dns_names).1 (λ n i. rw (blank n i)),
          (given_name-some common_name name h).1 common,
        ))
