-- ===== src/Sending/Tests.antt =====
-- The send path at concrete inputs.
use crypt_mail.Prelude.{
  ℕ, ◌≡◌, refl, ◌⊎◌, inl, inr, true, false, Option, none, some, List, [], ◌∷◌, arith, In, Text,
  codes, text_eq, trim, lookup, canonical,
}
use crypt_mail.Samples.{key_of, f2, ascii, ann, bob, ann_ring, ann_contact, me, one_timed, t2}
use crypt_mail.Keyring.{Keyring}
use crypt_mail.Recipients.{Identity, resolve_recipient}
use crypt_mail.Scheduler.{}
use crypt_mail.Sending.{deliver}
use crypt_mail.Sending.Parts.{refused, key_changed}
use crypt_mail.Sending.Types.{SendInput, World, SendState, built}
use crypt_mail.Sending.Invites.{send_invites, should_invite}
use crypt_mail.Sending.Ends.{IsEnding, deliver-IsEnding}
use crypt_mail.Sending.Learned.{with_discovery, deliver-VerifiesNothing}
use crypt_mail.Learning.{Learner}
use crypt_mail.Learning.Trusting.{VerifiesNothing}
use crypt_mail.Discovery.{found, vks}
use crypt_mail.Sending.Protected.{IsProtected, deliver-IsProtected}
use crypt_mail.Sending.Sealing.{IsSentTo, deliver-IsSentTo, deliver-key_changed}
use crypt_mail.Sending.Keeping.{deliver-Holds}
use crypt_mail.Scheduler.Whole.{content_of, Holds}
use crypt_mail.Sending.{input_of}
use crypt_mail.Outbox.{Held, awaiting_key}
use crypt_mail.Samples.{held, one_waiting, t1}
use crypt_mail.Prelude.{ap, values}
use crypt_mail.Sending.Holding.{LeavesOutbox, deliver-LeavesOutbox}
use crypt_mail.Sending.Inviting.{IsClock, at_moment, send_invites-once}

-- A core that seals everything alike, a provider that takes everything, and a clock of one mark.
abbrev read_mark : Text → Option ℕ
read_mark [] = none
read_mark (c ∷ s) = some c

abbrev world : World
world = record {
  discover = λ emails ring. ring;
  build_encrypted = λ request. built (codes "S");
  is_pgp_mime = λ m. text_eq m (codes "S");
  is_qkd_message = λ m. false;
  build_plaintext = λ plain. codes "P";
  accept = λ earlier m. none;
  archive_error = λ m. none;
  parse_date = read_mark;
  iso_of = λ at. at ∷ [];
  now_ms = 5;
  new_id = codes "n";
  is_real = true;
}

abbrev state : SendState
state = record {
  connected = true;
  session = some (codes "me@x.org");
  identity = some me;
  keyring = ann_ring;
  scheduled = one_timed;
  saved_outbox = one_timed;
  invites = [];
  saved_invites = [];
  archived = [];
  handed = [];
  refreshes = 0;
}

abbrev to : List Text → SendInput
to people = record {
  id = none;
  to = people;
  subject = codes "s";
  body = codes "b";
  html = none;
  in_reply_to = none;
  references = none;
  attachments = none;
  level = none;
}

deliver-IsEnding_example :
    IsEnding ascii world (to (bob ∷ [])) state (deliver ascii world (to (bob ∷ [])) state)
deliver-IsEnding_example = deliver-IsEnding ascii world (to (bob ∷ [])) state

deliver-IsProtected_example :
    In (codes "S") state.handed
    ⊎ ((sender : Text) × (me : Identity) × (state.session ≡ some sender)
        × (state.identity ≡ some me)
        × IsProtected ascii world sender me (to (ann ∷ [])) (codes "S"))
unfolding deliver crypt_mail.Sending.deliver_as crypt_mail.Sending.deliver_to
    crypt_mail.Recipients.resolve_recipient_states text_eq canonical trim
    crypt_mail.Keyring.find_key lookup crypt_mail.Sending.Parts.can_send_encrypted
    crypt_mail.Sending.Parts.armored_keys crypt_mail.Sending.send_pgp
    crypt_mail.Sending.Parts.hand_over
deliver-IsProtected_example =
    deliver-IsProtected ascii world (to (ann ∷ [])) state (codes "S") (inl refl)

deliver-IsSentTo_example :
    (sender : Text) × (me : Identity) × (state.session ≡ some sender)
    × (state.identity ≡ some me)
    × IsSentTo ascii world sender me
        (to (ann ∷ []))
        state
        (deliver ascii world (to (ann ∷ [])) state).state
unfolding deliver crypt_mail.Sending.deliver_as crypt_mail.Sending.deliver_to
    crypt_mail.Recipients.resolve_recipient_states text_eq canonical trim
    crypt_mail.Keyring.find_key lookup crypt_mail.Sending.Parts.can_send_encrypted
    crypt_mail.Sending.Parts.armored_keys crypt_mail.Sending.send_pgp
    crypt_mail.Sending.Parts.hand_over
deliver-IsSentTo_example = deliver-IsSentTo ascii world (to (ann ∷ [])) state refl refl

abbrev changed_ring : Keyring
changed_ring = (ann, record ann_contact { trust = crypt_mail.Keyring.Trust.changed }) ∷ []

abbrev suspicious : SendState
suspicious = record state { keyring = changed_ring }

deliver-key_changed_example :
    (named : List Text) × ((deliver ascii world (to (ann ∷ [])) suspicious).outcome
      ≡ refused (key_changed named))
    × In ann named
    × ((deliver ascii world (to (ann ∷ [])) suspicious).state
        ≡ record suspicious { keyring = world.discover (ann ∷ []) suspicious.keyring })
unfolding resolve_recipient text_eq canonical trim crypt_mail.Keyring.find_key lookup
deliver-key_changed_example =
    deliver-key_changed ascii world (to (ann ∷ [])) suspicious (codes "me@x.org") me ann refl refl
      refl refl refl (inl refl) refl

deliver-LeavesOutbox_example :
    LeavesOutbox world
      (to (bob ∷ []))
      state
      (deliver ascii world (to (bob ∷ [])) state).outcome
      (deliver ascii world (to (bob ∷ [])) state).state
deliver-LeavesOutbox_example = deliver-LeavesOutbox ascii world (to (bob ∷ [])) state

abbrev waiting_item : Held
waiting_item = held (codes "b") awaiting_key t1

world-IsClock : IsClock world
world-IsClock = record { reads = λ at. refl; writes = λ at e. cc e }

send_invites-once_example :
    (let after =
        send_invites ascii world (codes "me@x.org") (codes "mine") (bob ∷ ann ∷ []) state in
      (send_invites ascii
        (at_moment world 9)
        (codes "me@x.org")
        (codes "mine")
        (bob ∷ ann ∷ [])
        after).handed
      ≡ after.handed)
unfolding should_invite lookup
send_invites-once_example =
    send_invites-once ascii world 9 (codes "me@x.org") (codes "mine") (bob ∷ ann ∷ []) state
      world-IsClock (omega arith) (λ earlier m. refl) (refl, (refl, tt))

-- The directory serves another key of Ann's for every address.
abbrev learner : Learner
learner = record {
  import_public_key = λ armored. some (key_of ann f2);
  look_up = λ email. found (codes "key") vks;
  addresses_in_key = λ armored. ann ∷ [];
  searches = λ email. [];
  now = t2;
}

deliver-VerifiesNothing_example :
    (let after =
        deliver ascii (with_discovery ascii learner none world) (to (ann ∷ bob ∷ [])) state in
      VerifiesNothing state.keyring after.state.keyring)
deliver-VerifiesNothing_example =
    deliver-VerifiesNothing ascii learner none world (to (ann ∷ bob ∷ [])) state

deliver-Holds_example :
    (let after =
        deliver ascii world (input_of waiting_item) (record state { scheduled = one_waiting }) in
      Holds (codes "b") (content_of waiting_item) after.state.scheduled)
unfolding lookup text_eq values
deliver-Holds_example =
    deliver-Holds ascii world waiting_item (record state { scheduled = one_waiting }) (codes "b")
      (content_of waiting_item) (λ same. refl)
      (
        (waiting_item, refl, refl),
        λ item i same. elim i [ inl e ↦ ap content_of e | inr never ↦ absurd never ],
      )
