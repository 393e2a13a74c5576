-- ===== src/Cleanup/Sweep.antt =====
-- What a sweep of internal/statecleanup leaves in the store.
use rss2msg.Prelude.{
  ◌+◌, ◌≤◌, ◌≡◌, false, Option, none, some, List, [], ◌∷◌, All, arith, length, Bool-cases, inl, inr,
}
use rss2msg.Errors.{Err}
use rss2msg.Model.{Time}
use rss2msg.State.{
  ItemRow, MetaRow, Db, older, keep_items, keep_meta, prune_items_before, prune_feed_meta_before,
}
use rss2msg.Cleanup.{sweep}

keep_items-recent :
    (cutoff : Time) (rs : List ItemRow)
    → All (λ r. older r.last_seen_at cutoff ≡ false) (keep_items cutoff rs)
unfolding keep_items
keep_items-recent cutoff [] = tt
keep_items-recent cutoff (r ∷ rs) = elim (Bool-cases (older r.last_seen_at cutoff)) [
  | inl e ↦ rw e (keep_items-recent cutoff rs)
  | inr e ↦ rw e (e, keep_items-recent cutoff rs)
]

keep_meta-recent :
    (cutoff : Time) (rs : List MetaRow)
    → All (λ r. older r.updated_at cutoff ≡ false) (keep_meta cutoff rs)
unfolding keep_meta
keep_meta-recent cutoff [] = tt
keep_meta-recent cutoff (r ∷ rs) = elim (Bool-cases (older r.updated_at cutoff)) [
  | inl e ↦ rw e (keep_meta-recent cutoff rs)
  | inr e ↦ rw e (e, keep_meta-recent cutoff rs)
]

length-keep_items : (cutoff : Time) (rs : List ItemRow) → length (keep_items cutoff rs) ≤ length rs
unfolding keep_items
length-keep_items cutoff [] = omega arith
length-keep_items cutoff (r ∷ rs) = ground (arith, length-keep_items cutoff rs)

length-keep_meta : (cutoff : Time) (rs : List MetaRow) → length (keep_meta cutoff rs) ≤ length rs
unfolding keep_meta
length-keep_meta cutoff [] = omega arith
length-keep_meta cutoff (r ∷ rs) = ground (arith, length-keep_meta cutoff rs)

-- A sweep that reports no error leaves no item and no feed metadata from a second before that of the
-- cutoff, and reports as removed what the two tables have lost together.
sweep_lem :
    (items_fault meta_fault : Option Err) (cutoff : Time) (db : Db)
    → (sweep items_fault meta_fault cutoff db).0.error ≡ none
    → let (r, db') = sweep items_fault meta_fault cutoff db in
      All (λ x. older x.last_seen_at cutoff ≡ false) db'.seen_items
      × All (λ x. older x.updated_at cutoff ≡ false) db'.feed_meta
      × (r.removed + (length db'.seen_items + length db'.feed_meta)
          ≡ length db.seen_items + length db.feed_meta)
unfolding sweep prune_items_before prune_feed_meta_before
sweep_lem (some e) meta_fault cutoff db h = absurd (cc)
sweep_lem none (some e) cutoff db h = absurd (cc)
sweep_lem none none cutoff db h = (
  keep_items-recent cutoff db.seen_items,
  keep_meta-recent cutoff db.feed_meta,
  omega (arith, length-keep_items cutoff db.seen_items, length-keep_meta cutoff db.feed_meta),
)
