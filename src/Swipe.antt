-- ===== src/Swipe.antt =====
-- What a swipe on a mail row resolves to (app/src/swipe/swipe.ts). Colours, hints and the geometry of the
-- pull, which is in fractions of points, stand outside.
pub mod Sides
mod Tests
use crypt_mail.Prelude.{
  Bool, true, false, ◌&&◌, ◌||◌, not, Option, none, some, if◌then◌else◌, Text, codes,
}

pub data SwipeDirection : Type 0 where
  left right : SwipeDirection

pub data SwipeAction : Type 0 where
  unset off archive trash spam read snooze : SwipeAction

pub data SwipeOperation : Type 0 where
  to_set_up to_archive to_unarchive to_trash to_restore to_mark_spam to_mark_not_spam :
      SwipeOperation
  to_mark_read to_mark_unread to_snooze : SwipeOperation

pub data SwipeTone : Type 0 where
  positive destructive neutral accent : SwipeTone

pub data SecondaryBox : Type 0 where
  sent_box archive_box trash_box : SecondaryBox

pub data Category : Type 0 where
  primary purchases bills promotions spam_category : Category

pub record SwipeContext : Type 0 where
  pub box : Option SecondaryBox
  pub junk : Bool
  pub unread : Bool
  pub foreign : Bool
  pub category : Option Category

pub record SwipeVisual : Type 0 where
  pub operation : SwipeOperation
  pub label : Text
  pub tone : SwipeTone
  pub is_destructive : Bool

abbrev visual : SwipeOperation → Text → SwipeTone → Bool → SwipeVisual
visual operation label tone is_destructive = record {
  operation = operation;
  label = label;
  tone = tone;
  is_destructive = is_destructive;
}

abbrev pub swipe_visual : SwipeOperation → SwipeVisual
swipe_visual to_set_up = visual to_set_up (codes "Swipe to set up actions") neutral false
swipe_visual to_archive = visual to_archive (codes "Archive") positive false
swipe_visual to_unarchive = visual to_unarchive (codes "Move to inbox") positive false
swipe_visual to_trash = visual to_trash (codes "Delete") destructive true
swipe_visual to_restore = visual to_restore (codes "Restore") positive false
swipe_visual to_mark_spam = visual to_mark_spam (codes "Spam") destructive true
swipe_visual to_mark_not_spam = visual to_mark_not_spam (codes "Not spam") positive false
swipe_visual to_mark_read = visual to_mark_read (codes "Mark read") neutral false
swipe_visual to_mark_unread = visual to_mark_unread (codes "Mark unread") neutral false
swipe_visual to_snooze = visual to_snooze (codes "Snooze") accent false

abbrev pub is_inbox : Option SecondaryBox → Bool
is_inbox none = true
is_inbox (some box) = false

abbrev pub is_archive : Option SecondaryBox → Bool
is_archive (some archive_box) = true
is_archive _ = false

abbrev pub is_trash : Option SecondaryBox → Bool
is_trash (some trash_box) = true
is_trash _ = false

abbrev pub is_spam : Option Category → Bool
is_spam (some spam_category) = true
is_spam _ = false

unfoldable pub resolve_swipe : SwipeAction → SwipeContext → Option SwipeVisual
resolve_swipe unset ctx = some (swipe_visual to_set_up)
resolve_swipe off ctx = none
resolve_swipe archive ctx =
    if is_inbox ctx.box
    then some (swipe_visual to_archive)
    else if is_archive ctx.box
    then some (swipe_visual to_unarchive)
    else none
resolve_swipe trash ctx = some (swipe_visual (if is_trash ctx.box then to_restore else to_trash))
resolve_swipe spam ctx =
    if not (is_inbox ctx.box) || ctx.foreign
    then none
    else some (swipe_visual (if ctx.junk then to_mark_not_spam else to_mark_spam))
resolve_swipe read ctx = some (swipe_visual (if ctx.unread then to_mark_read else to_mark_unread))
resolve_swipe snooze ctx =
    if is_inbox ctx.box && not ctx.foreign then some (swipe_visual to_snooze) else none

pub data FixedSwipeList : Type 0 where
  sent_list drafts_list archive_list spam_list : FixedSwipeList

abbrev pub fixed_swipe_list : SwipeContext → Option FixedSwipeList
fixed_swipe_list ctx = list_of ctx.box ctx.category
  where
    list_of : Option SecondaryBox → Option Category → Option FixedSwipeList
    list_of (some sent_box) category = some sent_list
    list_of (some archive_box) category = some archive_list
    list_of (some trash_box) category = none
    list_of none (some spam_category) = some spam_list
    list_of none _ = none

abbrev pub deletes : SwipeAction → Bool
deletes trash = true
deletes _ = false

unfoldable pub delete_side : SwipeAction → SwipeAction → SwipeDirection
delete_side on_left on_right = if deletes on_right && not (deletes on_left) then right else left

pub record SwipePair : Type 0 where
  pub on_left : Option SwipeVisual
  pub on_right : Option SwipeVisual

abbrev pub way_back : FixedSwipeList → Bool → Option SwipeVisual
way_back archive_list foreign = some (swipe_visual to_unarchive)
way_back spam_list foreign = if foreign then none else some (swipe_visual to_mark_not_spam)
way_back _ foreign = none

abbrev pub placed : SwipeDirection → Option SwipeVisual → SwipePair
placed right other = record { on_left = other; on_right = some (swipe_visual to_trash) }
placed left other = record { on_left = some (swipe_visual to_trash); on_right = other }

unfoldable pub fixed_swipes : FixedSwipeList → SwipeAction → SwipeAction → Bool → SwipePair
fixed_swipes list on_left on_right foreign =
    placed (delete_side on_left on_right) (way_back list foreign)

-- Both sides of a row in the list it is in, with its fixed layout if it has one.
abbrev pub pair_in : Option FixedSwipeList → SwipeAction → SwipeAction → SwipeContext → SwipePair
pair_in none on_left on_right ctx = record {
  on_left = resolve_swipe on_left ctx;
  on_right = resolve_swipe on_right ctx;
}
pair_in (some list) on_left on_right ctx = fixed_swipes list on_left on_right ctx.foreign

unfoldable pub resolve_swipe_pair : SwipeAction → SwipeAction → SwipeContext → SwipePair
resolve_swipe_pair on_left on_right ctx = pair_in (fixed_swipe_list ctx) on_left on_right ctx

-- Whether the operation takes the row out of the list.
unfoldable pub swipe_removes_row : SwipeOperation → SwipeContext → Bool
swipe_removes_row to_set_up ctx = false
swipe_removes_row to_archive ctx = true
swipe_removes_row to_unarchive ctx = true
swipe_removes_row to_trash ctx = true
swipe_removes_row to_restore ctx = true
swipe_removes_row to_snooze ctx = false
swipe_removes_row to_mark_spam ctx = is_category ctx.category && not (is_spam ctx.category)
  where
    is_category : Option Category → Bool
    is_category none = false
    is_category (some category) = true
swipe_removes_row to_mark_not_spam ctx = is_spam ctx.category
swipe_removes_row to_mark_read ctx = false
swipe_removes_row to_mark_unread ctx = false
