-- ===== src/State/Prune.antt =====
-- What a retention sweep removes from the SQLite store of internal/state/sqlite.
use rss2msg.Prelude.{
  ℕ, ◌+◌, ◌≤◌, ◌≡◌, refl, Str, true, false, Option, none, some, List, [], ◌∷◌, All, arith, length,
  str_eq_iff, if◌then◌else◌, Bool-cases, inl, inr,
}
use rss2msg.Errors.{ok}
use rss2msg.Model.{Time}
use rss2msg.State.{
  ItemState, ItemRow, Db, is_item, older, select_item, keep_items, prune_items_before,
}
use rss2msg.State.Keys.{Distinct}

-- What is left of a row that a sweep may remove.
abbrev survivor : Time → Option ItemState → Option ItemState
survivor cutoff none = none
survivor cutoff (some s) = if older s.last_seen_at cutoff then none else some s

select_absent :
    (f i : Str) (cutoff : Time) (rs : List ItemRow)
    → All (λ q. is_item f i q ≡ false) rs
    → select_item f i (keep_items cutoff rs) ≡ none
unfolding select_item keep_items
select_absent f i cutoff [] h = refl
select_absent f i cutoff (r ∷ rs) h = ground (arith, select_absent f i cutoff rs)

same_key-absent :
    (f i : Str) (r : ItemRow) (rs : List ItemRow)
    → is_item f i r ≡ true
    → All (λ q. is_item r.feed_url r.item_id q ≡ false) rs
    → All (λ q. is_item f i q ≡ false) rs
same_key-absent f i r [] e h = tt
same_key-absent f i r (q ∷ rs) e h = (
  ground (arith, str_eq_iff r.feed_url f, str_eq_iff r.item_id i),
  same_key-absent f i r rs e h.1,
)

select-keep_items :
    (f i : Str) (cutoff : Time) (rs : List ItemRow)
    → Distinct rs
    → select_item f i (keep_items cutoff rs) ≡ survivor cutoff (select_item f i rs)
unfolding select_item keep_items
select-keep_items f i cutoff [] h = refl
select-keep_items f i cutoff (r ∷ rs) h = elim (Bool-cases (is_item f i r)) [
  | inl e ↦ ground (arith, select_absent f i cutoff rs (same_key-absent f i r rs e h.0))
  | inr e ↦ ground (arith, select-keep_items f i cutoff rs)
]

length-keep_items : (cutoff : Time) (rs : List ItemRow) → length (keep_items cutoff rs) ≤ length rs
unfolding keep_items
length-keep_items cutoff [] = omega arith
length-keep_items cutoff (r ∷ rs) = ground (arith, length-keep_items cutoff rs)

-- A successful PruneItemsBefore forgets exactly the items last seen in a second before that of the
-- cutoff, reports how many rows it removed, and leaves the feed metadata alone.
prune_items_exact :
    (db : Db) (cutoff : Time) (f i : Str)
    → Distinct db.seen_items
    → let (removed, db') = prune_items_before none db cutoff in
      (select_item f i db'.seen_items ≡ survivor cutoff (select_item f i db.seen_items))
      × ((n : ℕ) × (removed ≡ ok n) × (n + length db'.seen_items ≡ length db.seen_items))
      × (db'.feed_meta ≡ db.feed_meta)
unfolding prune_items_before
prune_items_exact db cutoff f i h = (
  select-keep_items f i cutoff db.seen_items h,
  (_, refl, omega (arith, length-keep_items cutoff db.seen_items)),
  refl,
)
