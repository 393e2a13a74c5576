-- ===== src/State/Keys.antt =====
-- The primary key of `seen_items` in internal/state/sqlite: no two rows share one.
use rss2msg.Prelude.{
  ◌≡◌, Str, false, Option, none, some, List, [], ◌∷◌, All, arith, str_eq_iff, Bool-cases, inl, inr,
}
use rss2msg.Errors.{Err}
use rss2msg.Model.{Time}
use rss2msg.State.{
  ItemRow, Db, is_item, older, insert_item, keep_items, upsert_item, prune_items_before,
}

-- No later row has the key of an earlier one.
abbrev pub Distinct : List ItemRow → Type 0
Distinct [] = Unit {0}
Distinct (r ∷ rs) = All (λ q. is_item r.feed_url r.item_id q ≡ false) rs × Distinct rs

abbrev Fresh : Str → Str → List ItemRow → Type 0
Fresh f i rs = All (λ q. is_item f i q ≡ false) rs

insert_item-Fresh :
    (f i : Str) (new : ItemRow) (rs : List ItemRow)
    → is_item f i new ≡ false
    → Fresh f i rs
    → Fresh f i (insert_item new rs)
unfolding insert_item
insert_item-Fresh f i new [] h k = (h, tt)
insert_item-Fresh f i new (r ∷ rs) h k = elim (Bool-cases (is_item new.feed_url new.item_id r)) [
  | inl e ↦ rw e (k.0, k.1)
  | inr e ↦ rw e (k.0, insert_item-Fresh f i new rs h k.1)
]

insert_item-Distinct :
    (new : ItemRow) (rs : List ItemRow) → Distinct rs → Distinct (insert_item new rs)
unfolding insert_item
insert_item-Distinct new [] h = (tt, tt)
insert_item-Distinct new (r ∷ rs) h = elim (Bool-cases (is_item new.feed_url new.item_id r)) [
  | inl e ↦ rw e (h.0, h.1)
  | inr e ↦ rw e (
    insert_item-Fresh r.feed_url r.item_id new rs
        (ground (
          arith,
          str_eq_iff r.feed_url new.feed_url,
          str_eq_iff r.item_id new.item_id,
          str_eq_iff new.feed_url r.feed_url,
          str_eq_iff new.item_id r.item_id,
        ))
        h.0,
    insert_item-Distinct new rs h.1,
  )
]

keep_items-Fresh :
    (f i : Str) (cutoff : Time) (rs : List ItemRow)
    → Fresh f i rs
    → Fresh f i (keep_items cutoff rs)
unfolding keep_items
keep_items-Fresh f i cutoff [] h = tt
keep_items-Fresh f i cutoff (r ∷ rs) h = elim (Bool-cases (older r.last_seen_at cutoff)) [
  | inl e ↦ rw e (keep_items-Fresh f i cutoff rs h.1)
  | inr e ↦ rw e (h.0, keep_items-Fresh f i cutoff rs h.1)
]

keep_items-Distinct :
    (cutoff : Time) (rs : List ItemRow) → Distinct rs → Distinct (keep_items cutoff rs)
unfolding keep_items
keep_items-Distinct cutoff [] h = tt
keep_items-Distinct cutoff (r ∷ rs) h = elim (Bool-cases (older r.last_seen_at cutoff)) [
  | inl e ↦ rw e (keep_items-Distinct cutoff rs h.1)
  | inr e ↦
      rw e (keep_items-Fresh r.feed_url r.item_id cutoff rs h.0, keep_items-Distinct cutoff rs h.1)
]

-- A write and a sweep, failing or not, keep the keys of `seen_items` unique.
writes-Distinct :
    (fault : Option Err) (db : Db) (f i hash : Str) (at cutoff : Time)
    → Distinct db.seen_items
    → Distinct (upsert_item fault db f i hash at).1.seen_items
      × Distinct (prune_items_before fault db cutoff).1.seen_items
unfolding upsert_item prune_items_before
writes-Distinct none db f i hash at cutoff h =
    (insert_item-Distinct _ db.seen_items h, keep_items-Distinct cutoff db.seen_items h)
writes-Distinct (some e) db f i hash at cutoff h = (h, h)
