-- ===== src/Reply/Recipients.antt =====
-- Whom a reply goes to, and what it refers to.
use crypt_mail.Prelude.{
  ◌≡◌, refl, sym, ap, ◌∙◌, subst, ◌≢◌, inl, inr, Bool, true, false, ◌&&◌, ◌||◌, not, Option, none,
  some, List, [], ◌∷◌, ◌++◌, map, arith, Bool-cases, filter, Text, text_eq, text_eq_iff,
  text_eq_refl, text_eq_sym, is_empty, has_text, has_text-filter, has_text-append, Locale,
  canonical,
}
use crypt_mail.Prelude.Filed.{push_all, has_text-unique}
use crypt_mail.Reply.{
  ReplyKind, ReplySource, dedupe_onto, not_self, reply_recipients, reply_all_recipients,
  reference_ids, build_references, words_from, text_or_empty, with_message_id, ReplyDraft,
  some_unless_nil, build_reply_draft, reply, reply_all, forward,
}

abbrev pub IsDistinct : List Text → Type 0
IsDistinct [] = Unit
IsDistinct (t ∷ ts) = (has_text t ts ≡ false) × IsDistinct ts

IsDistinct-append :
    (ts : List Text) (t : Text) → IsDistinct ts → has_text t ts ≡ false → IsDistinct (ts ++ t ∷ [])
unfolding has_text
IsDistinct-append [] t d n = (refl, tt)
IsDistinct-append (u ∷ ts) t (h, d) n = (
  ground (arith, has_text-append u ts (t ∷ []), text_eq_sym t u),
  IsDistinct-append ts t d (ground (arith, n)),
)

filter-IsDistinct : (p : Text → Bool) (ts : List Text) → IsDistinct ts → IsDistinct (filter p ts)
filter-IsDistinct p [] d = tt
filter-IsDistinct p (t ∷ ts) (h, d) = elim (Bool-cases (p t)) [
  | inl e ↦ rw e (has_text-filter p t ts ∙ rw h refl, filter-IsDistinct p ts d)
  | inr n ↦ rw n (filter-IsDistinct p ts d)
]

push_all-IsDistinct : (next add : List Text) → IsDistinct next → IsDistinct (push_all next add)
unfolding push_all
push_all-IsDistinct next [] d = d
push_all-IsDistinct next (t ∷ add) d = elim (Bool-cases (has_text t next)) [
  | inl e ↦ rw e (push_all-IsDistinct next add d)
  | inr n ↦ rw n (push_all-IsDistinct (next ++ t ∷ []) add (IsDistinct-append next t d n))
]

module _ (loc : Locale) where
  dedupe_onto-IsDistinct :
      (out emails : List Text) → IsDistinct out → IsDistinct (dedupe_onto loc out emails)
  unfolding dedupe_onto
  dedupe_onto-IsDistinct out [] d = d
  dedupe_onto-IsDistinct out (raw ∷ emails) d =
      let email = canonical loc raw in
      elim (Bool-cases (is_empty email || has_text email out)) [
        | inl e ↦ rw e (dedupe_onto-IsDistinct out emails d)
        | inr n ↦ rw n (
            dedupe_onto-IsDistinct (out ++ email ∷ []) emails
              (IsDistinct-append out email d (ground (arith, n))))
      ]

  has_text-dedupe_onto :
      (e : Text) (out emails : List Text)
      → has_text e (dedupe_onto loc out emails)
        ≡ (has_text e out || (not (is_empty e) && has_text e (map (canonical loc) emails)))
  unfolding dedupe_onto has_text
  has_text-dedupe_onto e out [] = ground arith
  has_text-dedupe_onto e out (raw ∷ emails) =
      let email = canonical loc raw in
      elim (Bool-cases (is_empty email || has_text email out)) [
        | inl taken ↦ rw taken (
            has_text-dedupe_onto e out emails
            ∙ ground (
              arith,
              taken,
              text_eq_iff email e,
              λ (same : email ≡ e). ap is_empty same,
              λ (same : email ≡ e). ap (λ x. has_text x out) same,
            ))
        | inr free ↦ rw free (
            has_text-dedupe_onto e (out ++ email ∷ []) emails
            ∙ ground (
              arith,
              free,
              has_text-append e out (email ∷ []),
              text_eq_iff email e,
              λ (same : email ≡ e). ap is_empty same,
            ))
      ]

-- Everybody that a message was between, as trimmed lower-case addresses.
abbrev pub people : Locale → ReplySource → List Text
people loc src = map (canonical loc) (src.from.address ∷ src.to)

abbrev pub IsAnswerTo : Locale → ReplySource → Text → List Text → Type 0
IsAnswerTo loc src self to =
    IsDistinct to
    × ((e : Text)
        → has_text e to ≡ true
        → (has_text e (people loc src) ≡ true)
          × (is_empty e ≡ false)
          × (text_eq e (canonical loc self) ≡ false))

has_text-others :
    (loc : Locale) (self e : Text) (emails : List Text)
    → has_text e (filter (not_self loc self) (dedupe_onto loc [] emails))
      ≡ ((not (is_empty e) && has_text e (map (canonical loc) emails)) && not_self loc self e)
unfolding has_text
has_text-others loc self e emails =
    has_text-filter (not_self loc self) e (dedupe_onto loc [] emails)
    ∙ ap (λ b. b && not_self loc self e) (has_text-dedupe_onto loc e [] emails)

-- The conjunctions taken apart.
three_facts :
    (a b c : Bool) → ((not a && b) && not c) ≡ true → (b ≡ true) × (a ≡ false) × (c ≡ false)
three_facts a b c h = ground (arith, h)

others-IsAnswerTo :
    (loc : Locale) (src : ReplySource) (self : Text) (emails : List Text)
    → ((e : Text)
        → has_text e (map (canonical loc) emails) ≡ true
        → has_text e (people loc src) ≡ true)
    → IsAnswerTo loc src self (filter (not_self loc self) (dedupe_onto loc [] emails))
others-IsAnswerTo loc src self emails among = (
  filter-IsDistinct (not_self loc self) (dedupe_onto loc [] emails)
      (dedupe_onto-IsDistinct loc [] emails tt),
  λ e i.
      let (held, given, other) =
        three_facts (is_empty e) (has_text e (map (canonical loc) emails))
          (text_eq e (canonical loc self)) (sym (has_text-others loc self e emails) ∙ i) in
      (among e held, given, other),
)

reply_all_recipients-IsAnswerTo :
    (loc : Locale) (src : ReplySource) (self : Text)
    → IsAnswerTo loc src self (reply_all_recipients loc src self)
unfolding reply_all_recipients
reply_all_recipients-IsAnswerTo loc src self =
    others-IsAnswerTo loc src self (src.from.address ∷ src.to) (λ e h. h)

one-IsAnswerTo :
    (loc : Locale) (src : ReplySource) (self : Text)
    → (not (is_empty (canonical loc src.from.address))
        && not (text_eq (canonical loc src.from.address) (canonical loc self)))
      ≡ true
    → IsAnswerTo loc src self (canonical loc src.from.address ∷ [])
unfolding has_text
one-IsAnswerTo loc src self h = (
  (refl, tt),
  λ e i.
      let same = (text_eq_iff (canonical loc src.from.address) e).0 (ground (arith, i)) in
      subst
        (λ x.
          ((text_eq (canonical loc src.from.address) x || has_text x (map (canonical loc) src.to))
            ≡ true)
          × (is_empty x ≡ false)
          × (text_eq x (canonical loc self) ≡ false))
        same
        (
          rw (text_eq_refl (canonical loc src.from.address)) refl,
          ground (arith, h),
          ground (arith, h),
        ),
)

reply_recipients-IsAnswerTo :
    (loc : Locale) (src : ReplySource) (self : Text)
    → IsAnswerTo loc src self (reply_recipients loc src self)
unfolding reply_recipients has_text
reply_recipients-IsAnswerTo loc src self =
    elim (Bool-cases (
      not (is_empty (canonical loc src.from.address))
      && not (text_eq (canonical loc src.from.address) (canonical loc self)))) [
        | inl e ↦ rw e (one-IsAnswerTo loc src self e)
        | inr n ↦ rw n (others-IsAnswerTo loc src self src.to (λ e h. ground (arith, h)))
      ]

build_references-IsDistinct : (src : ReplySource) → IsDistinct (build_references src)
unfolding build_references
build_references-IsDistinct src = push_all-IsDistinct [] (reference_ids src) tt

-- The words of the message's references, and its own id where that is not empty.
abbrev is_message_id : Text → Option Text → Bool
is_message_id id none = false
is_message_id id (some own) = not (is_empty own) && text_eq own id

abbrev pub is_reference : ReplySource → Text → Bool
is_reference src id =
    has_text id (words_from [] (text_or_empty src.references)) || is_message_id id src.message_id

-- References name each of these once, and nothing else; there are none only where these are none.
abbrev pub IsThreadOf : ReplySource → Option (List Text) → Type 0
IsThreadOf src none = (id : Text) → is_reference src id ≡ false
IsThreadOf src (some ids) =
    (ids ≢ []) × IsDistinct ids × ((id : Text) → has_text id ids ≡ is_reference src id)

-- What each kind of draft promises of its recipients and its thread.
abbrev pub IsDraftFor : Locale → ReplySource → Text → ReplyKind → ReplyDraft → Type 0
IsDraftFor loc src self forward draft =
    (draft.to ≡ []) × (draft.references ≡ none) × (draft.in_reply_to ≡ none)
IsDraftFor loc src self reply draft =
    IsAnswerTo loc src self draft.to
    × (draft.in_reply_to ≡ src.message_id)
    × IsThreadOf src draft.references
IsDraftFor loc src self reply_all draft =
    IsAnswerTo loc src self draft.to
    × ((e : Text)
        → has_text e draft.to
          ≡ ((not (is_empty e) && has_text e (people loc src)) && not_self loc self e))
    × (draft.in_reply_to ≡ src.message_id)
    × IsThreadOf src draft.references

has_text-with_message_id :
    (id : Text) (prior : List Text) (own : Option Text)
    → has_text id (with_message_id prior own) ≡ (has_text id prior || is_message_id id own)
unfolding has_text
has_text-with_message_id id prior none = ground arith
has_text-with_message_id id prior (some []) = ground arith
has_text-with_message_id id prior (some (c ∷ own)) =
    ground (arith, has_text-append id prior ((c ∷ own) ∷ []))

some_unless_nil-IsThreadOf :
    (src : ReplySource) (ids : List Text)
    → IsDistinct ids
    → ((id : Text) → has_text id ids ≡ is_reference src id)
    → IsThreadOf src (some_unless_nil ids)
unfolding has_text
some_unless_nil-IsThreadOf src [] d h = λ id. sym (h id)
some_unless_nil-IsThreadOf src (x ∷ xs) d h = ((λ e. cc e), d, h)

build_references-IsThreadOf :
    (src : ReplySource) → IsThreadOf src (some_unless_nil (build_references src))
unfolding build_references
build_references-IsThreadOf src =
    some_unless_nil-IsThreadOf src (build_references src) (build_references-IsDistinct src) (λ id.
      has_text-unique id (reference_ids src)
      ∙ has_text-with_message_id id (words_from [] (text_or_empty src.references)) src.message_id)

-- A reply goes to people of the message alone, each once and never to oneself; a reply to all goes to
-- every one of them, as trimmed lower-case addresses that are not empty. It carries the message's id,
-- and its references name, each once, exactly those of the message and its id, where that is not empty:
-- there are none only where the message has neither. A forward has no recipients yet and starts a thread
-- of its own.
pub build_reply_draft-IsDraftFor :
    (display_name : Text → Option Text → Text) (quote_date : Text → Text) (loc : Locale)
    (kind : ReplyKind) (src : ReplySource) (self : Text)
    → IsDraftFor loc src self kind (build_reply_draft display_name quote_date loc kind src self)
unfolding build_reply_draft reply_all_recipients
build_reply_draft-IsDraftFor display_name quote_date loc forward src self = (refl, refl, refl)
build_reply_draft-IsDraftFor display_name quote_date loc reply src self =
    (reply_recipients-IsAnswerTo loc src self, refl, build_references-IsThreadOf src)
build_reply_draft-IsDraftFor display_name quote_date loc reply_all src self = (
  reply_all_recipients-IsAnswerTo loc src self,
  λ e. has_text-others loc self e (src.from.address ∷ src.to),
  refl,
  build_references-IsThreadOf src,
)
