-- ===== src/Reply/Tests.antt =====
-- A reply at a concrete input.
use crypt_mail.Prelude.{Option, none, some, [], ◌∷◌, Text, codes}
use crypt_mail.Samples.{ascii, ann, bob, t1}
use crypt_mail.Reply.{ReplySource, reply_all, build_reply_draft}
use crypt_mail.Reply.Recipients.{IsDraftFor, build_reply_draft-IsDraftFor}

abbrev address_alone : Text → Option Text → Text
address_alone address name = address

abbrev same_date : Text → Text
same_date date = date

abbrev from_ann : ReplySource
from_ann = record {
  from = record { address = ann; name = none };
  to = bob ∷ codes "ANN@x.org" ∷ codes "cy@x.org" ∷ [];
  date = t1;
  subject = codes "Re: x";
  body = codes "b";
  message_id = some (codes "<1>");
  references = some (codes "<0> <1>");
  attachments = none;
}

build_reply_draft-IsDraftFor_example :
    IsDraftFor ascii from_ann bob reply_all
      (build_reply_draft address_alone same_date ascii reply_all from_ann bob)
build_reply_draft-IsDraftFor_example =
    build_reply_draft-IsDraftFor address_alone same_date ascii reply_all from_ann bob
