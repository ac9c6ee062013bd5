-- ===== src/Mail.antt =====
-- A row of mail and a change of its flags, as the providers hand them over (app/src/mail/types.ts).
use crypt_mail.Prelude.{Bool, Option, none, List, Text}

pub record Sender : Type 0 where
  pub address : Text
  pub name : Option Text

pub record MailSummary : Type 0 where
  pub id : Text
  pub thread_id : Option Text
  pub from : Sender
  pub to : List Text
  pub date : Text
  pub subject : Text
  pub snippet : Text
  pub unread : Bool
  pub starred : Bool
  pub message_id : Option Text
  pub references : Option Text
  pub autocrypt : Option Text
  pub reply_to : Option Text
  pub authentication_results : Option Text
  pub list_unsubscribe : Option Text
  pub return_path : Option Text
  pub labels : Option (List Text)

-- A change to a message's flags; an absent field changes nothing.
pub record FlagPatch : Type 0 where
  pub unread : Option Bool
  pub starred : Option Bool
  pub archived : Option Bool
  pub trashed : Option Bool
  pub junk : Option Bool

abbrev pub no_change : FlagPatch
no_change = record { unread = none; starred = none; archived = none; trashed = none; junk = none }
