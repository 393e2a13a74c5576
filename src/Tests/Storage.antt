-- ===== src/Tests/Storage.antt =====
-- A store with two items.
use rss2msg.Prelude.{◌≡◌, refl, lit, ◌&&◌, none, some, [], ◌∷◌, str_eq, if◌then◌else◌}
use rss2msg.Errors.{ok}
use rss2msg.State.{Db, ItemRow, FeedMeta, get_item, upsert_item, prune_items_before}
use rss2msg.State.Items.{get-upsert_item}
use rss2msg.Tests.Fixtures.{url}

abbrev old_row : ItemRow
old_row = record {
  feed_url = url;
  item_id = lit "o";
  content_hash = lit "1";
  last_seen_at = 1_000_000_000;
}

abbrev new_row : ItemRow
new_row = record {
  feed_url = url;
  item_id = lit "n";
  content_hash = lit "2";
  last_seen_at = 9_000_000_000;
}

abbrev pub two_rows : Db
two_rows = record { seen_items = old_row ∷ new_row ∷ []; feed_meta = [] }

get-upsert_item_example :
    get_item none (upsert_item none two_rows url (lit "n") (lit "3") 10).1 url (lit "o") ≡ (
      if str_eq url url && str_eq (lit "n") (lit "o")
      then ok (some (record { content_hash = lit "3"; last_seen_at = 10 }))
      else get_item none two_rows url (lit "o"))
get-upsert_item_example = get-upsert_item two_rows url (lit "n") url (lit "o") (lit "3") 10

abbrev validators : FeedMeta
validators = record { etag = lit "e"; last_modified = 4 }

one_removed : (prune_items_before none two_rows 2_000_000_000).0 ≡ ok 1
unfolding prune_items_before
one_removed = refl
