-- ===== src/State/Items.antt =====
-- Reading back what was written to the SQLite store of internal/state/sqlite.
use rss2msg.Prelude.{
  ◌≡◌, refl, Str, ◌&&◌, none, some, List, [], ◌∷◌, arith, str_eq, str_eq_iff, if◌then◌else◌,
}
use rss2msg.Errors.{ok}
use rss2msg.Model.{Time}
use rss2msg.State.{
  FeedMeta, time_or_zero, null_if_zero, ItemRow, MetaRow, Db, select_item, insert_item, get_item,
  upsert_item, select_meta, insert_meta, get_feed_meta, upsert_feed_meta,
}

pub select-insert_item :
    (f i : Str) (new : ItemRow) (rs : List ItemRow)
    → select_item f i (insert_item new rs) ≡ (
        if str_eq new.feed_url f && str_eq new.item_id i
        then some (record { content_hash = new.content_hash; last_seen_at = new.last_seen_at })
        else select_item f i rs)
unfolding select_item insert_item
select-insert_item f i new [] = refl
select-insert_item f i new (r ∷ rs) = ground (
  arith,
  str_eq_iff r.feed_url new.feed_url,
  str_eq_iff r.item_id new.item_id,
  str_eq_iff r.feed_url f,
  str_eq_iff r.item_id i,
  str_eq_iff new.feed_url f,
  str_eq_iff new.item_id i,
  select-insert_item f i new rs,
)

-- After a successful UpsertItem, GetItem of that key returns the hash and the instant written, and
-- GetItem of any other key returns what it did before.
pub get-upsert_item :
    (db : Db) (f i g j hash : Str) (seen_at : Time)
    → get_item none (upsert_item none db f i hash seen_at).1 g j ≡ (
        if str_eq f g && str_eq i j
        then ok (some (record { content_hash = hash; last_seen_at = seen_at }))
        else get_item none db g j)
unfolding get_item upsert_item
get-upsert_item db f i g j hash seen_at = ground (
  arith,
  select-insert_item g j
      (record { feed_url = f; item_id = i; content_hash = hash; last_seen_at = seen_at })
      db.seen_items,
)

select-insert_meta :
    (f : Str) (new : MetaRow) (rs : List MetaRow)
    → select_meta f (insert_meta new rs)
      ≡ (if str_eq new.feed_url f then select_meta f (new ∷ []) else select_meta f rs)
unfolding select_meta insert_meta
select-insert_meta f new [] = ground arith
select-insert_meta f new (r ∷ rs) = ground (
  arith,
  str_eq_iff r.feed_url new.feed_url,
  str_eq_iff r.feed_url f,
  str_eq_iff new.feed_url f,
  select-insert_meta f new rs,
)

null-or-zero : (t : Time) → time_or_zero (null_if_zero t) ≡ t
null-or-zero t = ground arith

-- After a successful UpsertFeedMeta, GetFeedMeta of that feed returns the validators written, a zero
-- Last-Modified included, and that of any other feed is as before; no item changes.
pub get-upsert_feed_meta :
    (db : Db) (f g : Str) (now : Time) (meta : FeedMeta)
    → let (e, db') = upsert_feed_meta none now db f meta in
      (get_feed_meta none db' g ≡ (if str_eq f g then ok (some meta) else get_feed_meta none db g))
      × (db'.seen_items ≡ db.seen_items)
unfolding get_feed_meta upsert_feed_meta
get-upsert_feed_meta db f g now meta = (
  ground (
    arith,
    select-insert_meta g
        (record {
          feed_url = f;
          etag = meta.etag;
          last_modified = null_if_zero meta.last_modified;
          updated_at = now;
        })
        db.feed_meta,
    null-or-zero meta.last_modified,
  ),
  refl,
)
