-- ===== src/State.antt =====
-- internal/state/state.go and its SQLite implementation, internal/state/sqlite/sqlite.go. A table
-- is the list of its rows. What the driver reports for a statement (nil, or an error that leaves
-- the table as it was) is an argument. An instant is stored as itself: formatting it as RFC 3339
-- with nanoseconds and parsing the text gives it back.
pub mod Keys
pub mod Items
pub mod Prune
use rss2msg.Prelude.{
  ℕ, ◌+◌, ◌-◌, ◌/◌, Str, Bool, true, false, not, ◌&&◌, Option, none, some, List, [], ◌∷◌, length,
  ltb, ◌==◌, str_eq, if◌then◌else◌,
}
use rss2msg.Errors.{Err, Result, ok, err}
use rss2msg.Model.{Time}

pub record ItemState : Type 0 where
  pub content_hash : Str
  pub last_seen_at : Time

pub record FeedMeta : Type 0 where
  pub etag : Str
  pub last_modified : Time

-- A row of `seen_items`; its key is (feed_url, item_id).
pub record ItemRow : Type 0 where
  pub feed_url : Str
  pub item_id : Str
  pub content_hash : Str
  pub last_seen_at : Time

-- A row of `feed_meta`; its key is feed_url. `last_modified` may be NULL.
pub record MetaRow : Type 0 where
  pub feed_url : Str
  pub etag : Str
  pub last_modified : Option Time
  pub updated_at : Time

pub record Db : Type 0 where
  pub seen_items : List ItemRow
  pub feed_meta : List MetaRow

abbrev pub is_item : Str → Str → ItemRow → Bool
is_item feed_url item_id r = str_eq r.feed_url feed_url && str_eq r.item_id item_id

-- SELECT … WHERE feed_url=? AND item_id=?
unfoldable pub select_item : Str → Str → List ItemRow → Option ItemState
select_item f i [] = none
select_item f i (r ∷ rs) =
    if is_item f i r
    then some (record { content_hash = r.content_hash; last_seen_at = r.last_seen_at })
    else select_item f i rs

-- INSERT … ON CONFLICT (feed_url, item_id) DO UPDATE SET content_hash, last_seen_at
unfoldable pub insert_item : ItemRow → List ItemRow → List ItemRow
insert_item new [] = new ∷ []
insert_item new (r ∷ rs) =
    if is_item new.feed_url new.item_id r
    then record r { content_hash = new.content_hash; last_seen_at = new.last_seen_at } ∷ rs
    else r ∷ insert_item new rs

unfoldable pub get_item : Option Err → Db → Str → Str → Result (Option ItemState)
unfolding select_item
get_item none db f i = ok (select_item f i db.seen_items)
get_item (some e) db f i = err e

unfoldable pub upsert_item : Option Err → Db → Str → Str → Str → Time → Option Err × Db
unfolding insert_item
upsert_item (some e) db f i hash seen_at = (some e, db)
upsert_item none db f i hash seen_at =
    let row : ItemRow = record {
      feed_url = f;
      item_id = i;
      content_hash = hash;
      last_seen_at = seen_at;
    } in
    (none, record db { seen_items = insert_item row db.seen_items })

-- `datetime(a) < datetime(b)`: SQLite compares whole seconds.
abbrev pub older : Time → Time → Bool
older a b = ltb (a / 1_000_000_000) (b / 1_000_000_000)

-- DELETE … WHERE datetime(last_seen_at) < datetime(?)
unfoldable pub keep_items : Time → List ItemRow → List ItemRow
keep_items cutoff [] = []
keep_items cutoff (r ∷ rs) =
    let rest = keep_items cutoff rs in if older r.last_seen_at cutoff then rest else r ∷ rest

unfoldable pub prune_items_before : Option Err → Db → Time → Result ℕ × Db
unfolding keep_items
prune_items_before (some e) db cutoff = (err e, db)
prune_items_before none db cutoff =
    let kept = keep_items cutoff db.seen_items in
    (ok (length db.seen_items - length kept), record db { seen_items = kept })

abbrev pub time_or_zero : Option Time → Time
time_or_zero none = 0
time_or_zero (some t) = t

-- NULL stands for the zero time.
abbrev pub null_if_zero : Time → Option Time
null_if_zero t = if t == 0 then none else some t

unfoldable pub select_meta : Str → List MetaRow → Option FeedMeta
select_meta f [] = none
select_meta f (r ∷ rs) =
    if str_eq r.feed_url f
    then some (record { etag = r.etag; last_modified = time_or_zero r.last_modified })
    else select_meta f rs

unfoldable pub insert_meta : MetaRow → List MetaRow → List MetaRow
insert_meta new [] = new ∷ []
insert_meta new (r ∷ rs) =
    if str_eq r.feed_url new.feed_url
    then record r {
      etag = new.etag;
      last_modified = new.last_modified;
      updated_at = new.updated_at;
    }
      ∷ rs
    else r ∷ insert_meta new rs

unfoldable pub get_feed_meta : Option Err → Db → Str → Result (Option FeedMeta)
unfolding select_meta
get_feed_meta none db f = ok (select_meta f db.feed_meta)
get_feed_meta (some e) db f = err e

-- `now` is the wall clock that the statement reads.
unfoldable pub upsert_feed_meta : Option Err → Time → Db → Str → FeedMeta → Option Err × Db
unfolding insert_meta
upsert_feed_meta (some e) now db f meta = (some e, db)
upsert_feed_meta none now db f meta =
    let row : MetaRow = record {
      feed_url = f;
      etag = meta.etag;
      last_modified = null_if_zero meta.last_modified;
      updated_at = now;
    } in
    (none, record db { feed_meta = insert_meta row db.feed_meta })

unfoldable pub keep_meta : Time → List MetaRow → List MetaRow
keep_meta cutoff [] = []
keep_meta cutoff (r ∷ rs) =
    let rest = keep_meta cutoff rs in if older r.updated_at cutoff then rest else r ∷ rest

unfoldable pub prune_feed_meta_before : Option Err → Db → Time → Result ℕ × Db
unfolding keep_meta
prune_feed_meta_before (some e) db cutoff = (err e, db)
prune_feed_meta_before none db cutoff =
    let kept = keep_meta cutoff db.feed_meta in
    (ok (length db.feed_meta - length kept), record db { feed_meta = kept })
