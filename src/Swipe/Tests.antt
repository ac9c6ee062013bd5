-- ===== src/Swipe/Tests.antt =====
-- Swipes at concrete inputs.
use crypt_mail.Prelude.{◌≡◌, refl, true, false, none, some}
use crypt_mail.Swipe.{SwipeContext, swipe_visual, resolve_swipe, archive, to_unarchive, archive_box}

abbrev in_archive : SwipeContext
in_archive = record {
  box = some archive_box;
  junk = false;
  unread = true;
  foreign = false;
  category = none;
}

-- In the Archive list the archive action moves a message back to the inbox.
resolve_swipe_test : resolve_swipe archive in_archive ≡ some (swipe_visual to_unarchive)
unfolding resolve_swipe
resolve_swipe_test = refl
