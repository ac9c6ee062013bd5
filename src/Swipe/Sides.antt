-- ===== src/Swipe/Sides.antt =====
-- Which operations the two sides of a row can have.
use crypt_mail.Prelude.{
  ◌≡◌, refl, sym, subst, Bool, true, false, ◌&&◌, ◌||◌, not, Option, none, some, arith,
}
use crypt_mail.Swipe.{
  way_back, pair_in, placed, SwipeDirection, SwipeAction, SwipeOperation, SecondaryBox, Category,
  SwipeContext, SwipeVisual, swipe_visual, is_inbox, is_archive, is_trash, is_spam, resolve_swipe,
  FixedSwipeList, fixed_swipe_list, delete_side, SwipePair, fixed_swipes, resolve_swipe_pair, left,
  right, unset, off, archive, trash, spam, read, snooze, to_set_up, to_archive, to_unarchive,
  to_trash, to_restore, to_mark_spam, to_mark_not_spam, to_mark_read, to_mark_unread, to_snooze,
  sent_box, archive_box, trash_box, primary, purchases, bills, promotions, spam_category, sent_list,
  drafts_list, archive_list, spam_list,
}

-- Whether an operation means anything for a row: a move only out of where the row is, a spam mark and a
-- snooze only in the inbox of the mailbox in front, and a flag only to what the row has not.
abbrev fits : SwipeContext → SwipeOperation → Bool
fits ctx to_set_up = true
fits ctx to_archive = is_inbox ctx.box
fits ctx to_unarchive = is_archive ctx.box
fits ctx to_trash = not (is_trash ctx.box)
fits ctx to_restore = is_trash ctx.box
fits ctx to_mark_spam = is_inbox ctx.box && (not ctx.foreign && not ctx.junk)
fits ctx to_mark_not_spam =
    is_inbox ctx.box && (not ctx.foreign && (is_spam ctx.category || ctx.junk))
fits ctx to_mark_read = ctx.unread
fits ctx to_mark_unread = not ctx.unread
fits ctx to_snooze = is_inbox ctx.box && not ctx.foreign

abbrev side_fits : SwipeContext → Option SwipeVisual → Bool
side_fits ctx none = true
side_fits ctx (some shown) = fits ctx shown.operation

resolve_swipe-fits :
    (action : SwipeAction) (box : Option SecondaryBox) (junk unread foreign : Bool)
    (category : Option Category)
    → (let ctx : SwipeContext = record {
      box = box;
      junk = junk;
      unread = unread;
      foreign = foreign;
      category = category;
    } in
        side_fits ctx (resolve_swipe action ctx) ≡ true)
unfolding resolve_swipe
resolve_swipe-fits unset box junk unread foreign category = refl
resolve_swipe-fits off box junk unread foreign category = refl
resolve_swipe-fits archive none junk unread foreign category = refl
resolve_swipe-fits archive (some sent_box) junk unread foreign category = refl
resolve_swipe-fits archive (some archive_box) junk unread foreign category = refl
resolve_swipe-fits archive (some trash_box) junk unread foreign category = refl
resolve_swipe-fits trash none junk unread foreign category = refl
resolve_swipe-fits trash (some sent_box) junk unread foreign category = refl
resolve_swipe-fits trash (some archive_box) junk unread foreign category = refl
resolve_swipe-fits trash (some trash_box) junk unread foreign category = refl
resolve_swipe-fits spam none true unread false category = ground arith
resolve_swipe-fits spam none false unread false category = refl
resolve_swipe-fits spam none junk unread true category = refl
resolve_swipe-fits spam (some sent_box) junk unread foreign category = refl
resolve_swipe-fits spam (some archive_box) junk unread foreign category = refl
resolve_swipe-fits spam (some trash_box) junk unread foreign category = refl
resolve_swipe-fits read box junk true foreign category = refl
resolve_swipe-fits read box junk false foreign category = refl
resolve_swipe-fits snooze none junk unread true category = refl
resolve_swipe-fits snooze none junk unread false category = refl
resolve_swipe-fits snooze (some sent_box) junk unread foreign category = refl
resolve_swipe-fits snooze (some archive_box) junk unread foreign category = refl
resolve_swipe-fits snooze (some trash_box) junk unread foreign category = refl

-- Whether both sides fit.
abbrev pub pair_fits : SwipeContext → SwipePair → Bool
pair_fits ctx pair = side_fits ctx pair.on_left && side_fits ctx pair.on_right

placed-fits :
    (ctx : SwipeContext) (side : SwipeDirection) (other : Option SwipeVisual)
    → is_trash ctx.box ≡ false
    → side_fits ctx other ≡ true
    → pair_fits ctx (placed side other) ≡ true
placed-fits ctx left other away fit = simp (away, fit)
placed-fits ctx right other away fit = simp (away, fit)

pair_fits-fields :
    (on_left on_right : SwipeAction) (box : Option SecondaryBox) (junk unread foreign : Bool)
    (category : Option Category)
    → (let ctx : SwipeContext = record {
      box = box;
      junk = junk;
      unread = unread;
      foreign = foreign;
      category = category;
    } in
        pair_fits ctx (resolve_swipe_pair on_left on_right ctx) ≡ true)
unfolding resolve_swipe_pair fixed_swipes
pair_fits-fields on_left on_right (some sent_box) junk unread foreign category =
    placed-fits
      (record {
        box = (some sent_box);
        junk = junk;
        unread = unread;
        foreign = foreign;
        category = category;
      })
      (delete_side on_left on_right) (none) refl refl
pair_fits-fields on_left on_right (some archive_box) junk unread foreign category =
    placed-fits
      (record {
        box = (some archive_box);
        junk = junk;
        unread = unread;
        foreign = foreign;
        category = category;
      })
      (delete_side on_left on_right) (some (swipe_visual to_unarchive)) refl refl
pair_fits-fields on_left on_right (some trash_box) junk unread foreign category = ground (
  arith,
  resolve_swipe-fits on_left (some trash_box) junk unread foreign category,
  resolve_swipe-fits on_right (some trash_box) junk unread foreign category,
)
pair_fits-fields on_left on_right none junk unread foreign none = ground (
  arith,
  resolve_swipe-fits on_left none junk unread foreign none,
  resolve_swipe-fits on_right none junk unread foreign none,
)
pair_fits-fields on_left on_right none junk unread foreign (some primary) = ground (
  arith,
  resolve_swipe-fits on_left none junk unread foreign (some primary),
  resolve_swipe-fits on_right none junk unread foreign (some primary),
)
pair_fits-fields on_left on_right none junk unread foreign (some purchases) = ground (
  arith,
  resolve_swipe-fits on_left none junk unread foreign (some purchases),
  resolve_swipe-fits on_right none junk unread foreign (some purchases),
)
pair_fits-fields on_left on_right none junk unread foreign (some bills) = ground (
  arith,
  resolve_swipe-fits on_left none junk unread foreign (some bills),
  resolve_swipe-fits on_right none junk unread foreign (some bills),
)
pair_fits-fields on_left on_right none junk unread foreign (some promotions) = ground (
  arith,
  resolve_swipe-fits on_left none junk unread foreign (some promotions),
  resolve_swipe-fits on_right none junk unread foreign (some promotions),
)
pair_fits-fields on_left on_right none junk unread true (some spam_category) =
    placed-fits
      (record {
        box = none;
        junk = junk;
        unread = unread;
        foreign = true;
        category = (some spam_category);
      })
      (delete_side on_left on_right) (none) refl refl
pair_fits-fields on_left on_right none junk unread false (some spam_category) =
    placed-fits
      (record {
        box = none;
        junk = junk;
        unread = unread;
        foreign = false;
        category = (some spam_category);
      })
      (delete_side on_left on_right) (some (swipe_visual to_mark_not_spam)) refl refl

-- Whatever actions the user put on the two sides, and in whatever list the row is, an operation that a
-- side offers fits the row: a move only out of where it is, a spam mark and a snooze only in the inbox
-- of the mailbox in front, and a flag only to what it is not.
pub resolve_swipe_pair-fits :
    (on_left on_right : SwipeAction) (ctx : SwipeContext)
    → pair_fits ctx (resolve_swipe_pair on_left on_right ctx) ≡ true
unfolding resolve_swipe_pair
resolve_swipe_pair-fits on_left on_right ctx =
    pair_fits-fields on_left on_right ctx.box ctx.junk ctx.unread ctx.foreign ctx.category

abbrev is_delete : Option SwipeVisual → Bool
is_delete none = false
is_delete (some shown) = deletes_operation shown.operation
  where
    deletes_operation : SwipeOperation → Bool
    deletes_operation to_trash = true
    deletes_operation _ = false

-- Delete on this side, and not on the other.
abbrev pub HasDelete : SwipeDirection → SwipePair → Type 0
HasDelete left pair = (is_delete pair.on_left ≡ true) × (is_delete pair.on_right ≡ false)
HasDelete right pair = (is_delete pair.on_right ≡ true) × (is_delete pair.on_left ≡ false)

placed-HasDelete :
    (side : SwipeDirection) (list : FixedSwipeList) (foreign : Bool)
    → HasDelete side (placed side (way_back list foreign))
placed-HasDelete left sent_list foreign = (refl, refl)
placed-HasDelete left drafts_list foreign = (refl, refl)
placed-HasDelete left archive_list foreign = (refl, refl)
placed-HasDelete left spam_list true = (refl, refl)
placed-HasDelete left spam_list false = (refl, refl)
placed-HasDelete right sent_list foreign = (refl, refl)
placed-HasDelete right drafts_list foreign = (refl, refl)
placed-HasDelete right archive_list foreign = (refl, refl)
placed-HasDelete right spam_list true = (refl, refl)
placed-HasDelete right spam_list false = (refl, refl)

-- A list with a fixed layout has Delete on exactly one side, whatever actions the user chose: on the
-- right if the user has Delete there and not on the left, and else on the left.
pub resolve_swipe_pair-HasDelete :
    (on_left on_right : SwipeAction) (ctx : SwipeContext) (list : FixedSwipeList)
    → fixed_swipe_list ctx ≡ some list
    → HasDelete (delete_side on_left on_right) (resolve_swipe_pair on_left on_right ctx)
unfolding resolve_swipe_pair fixed_swipes
resolve_swipe_pair-HasDelete on_left on_right ctx list h =
    subst (λ l. HasDelete (delete_side on_left on_right) (pair_in l on_left on_right ctx)) (sym h)
      (placed-HasDelete (delete_side on_left on_right) list ctx.foreign)
