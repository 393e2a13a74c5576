-- ===== src/Feed.antt =====
-- internal/feed/detector.go: which items of a parsed feed are new or updated, in which order.
pub mod Order
pub mod Commits
pub mod Again
use rss2msg.Prelude.{
  ℕ, Str, Bool, true, false, not, ◌&&◌, Option, none, some, List, [], ◌∷◌, is_empty, ltb, str_eq,
  if◌then◌else◌,
}
use rss2msg.Errors.{Err, Result, ok, err}
use rss2msg.Model.{
  Time, ChangeKind, new, updated, Change, schema_version, content_hash, identity_key,
}
use rss2msg.Model.Space.{trim_space}
use rss2msg.State.{ItemState, get_item, time_or_zero}
use rss2msg.World.{FeedItem, ParsedFeed, Env, World, tick}

-- SHA-256 in hex, and an instant as RFC 3339 in UTC.
pub record Digest : Type 0 where
  pub sha256_hex : Str → Str
  pub rfc3339 : Time → Str

-- `publishedTime`
unfoldable pub published_time : FeedItem → Time
published_time it = time_or_zero it.published

-- sort.SliceStable by `publishedTime(a).Before(publishedTime(b))`: a stable sort has one result.
unfoldable pub insert_item : FeedItem → List FeedItem → List FeedItem
unfolding published_time
insert_item it [] = it ∷ []
insert_item it (x ∷ xs) =
    if ltb (published_time x) (published_time it) then x ∷ insert_item it xs else it ∷ (x ∷ xs)

unfoldable pub sort_items : List FeedItem → List FeedItem
unfolding insert_item
sort_items [] = []
sort_items (it ∷ its) = insert_item it (sort_items its)

-- The loop of `collectAuthors`: nil pointers and empty names are passed over.
unfoldable author_names : List (Option Str) → List Str
author_names [] = []
author_names (none ∷ rest) = author_names rest
author_names (some [] ∷ rest) = author_names rest
author_names (some (x ∷ n) ∷ rest) = (x ∷ n) ∷ author_names rest

abbrev single_author : Option Str → List Str
single_author none = []
single_author (some []) = []
single_author (some (x ∷ n)) = (x ∷ n) ∷ []

unfoldable collect_authors : FeedItem → List Str
unfolding author_names
collect_authors it = elim it.authors [
  | [] ↦ single_author it.author
  | a ∷ rest ↦ author_names (a ∷ rest)
]

abbrev name_or_empty : Option Str → Str
name_or_empty none = []
name_or_empty (some n) = n

-- `body` of `classify`: the content, or else the description.
unfoldable body_of : Str → Str → Str
body_of content description = if is_empty content then description else content

-- `if ok { out = append(out, change) }`, for the changes found behind this one.
abbrev pub collect : Option Change → Result (List Change) → Result (List Change)
collect c (err e) = err e
collect none (ok cs) = ok cs
collect (some c) (ok cs) = ok (c ∷ cs)

module _ (dig : Digest) where
  unfoldable pub item_id : FeedItem → Str
  item_id it =
      identity_key dig.sha256_hex dig.rfc3339 it.guid it.link it.title (time_or_zero it.published)

  unfoldable pub item_hash : FeedItem → Str
  unfolding body_of
  item_hash it =
      content_hash dig.sha256_hex dig.rfc3339 it.title it.link
        (body_of (trim_space it.content) (trim_space it.description)) (name_or_empty it.author)
        (time_or_zero it.updated)

  -- The struct literal at the end of `classify`.
  unfoldable pub change_of : Str → Str → Time → ChangeKind → FeedItem → Change
  unfolding item_id item_hash collect_authors
  change_of feed_url feed_title detected_at kind it = record {
    schema = schema_version;
    feed_url = feed_url;
    feed_title = feed_title;
    item_id = item_id it;
    kind = kind;
    title = it.title;
    link = it.link;
    authors = collect_authors it;
    summary = it.description;
    content = it.content;
    categories = it.categories;
    published_at = it.published;
    updated_at = it.updated;
    content_hash = item_hash it;
    detected_at = detected_at;
    dlq_from_sink = [];
    dlq_error = [];
    dlq_attempts = 0;
  }

  -- What `classify` decides from the stored state of the item.
  unfoldable pub decide_change : Str → Str → Time → FeedItem → Option ItemState → Option Change
  unfolding change_of
  decide_change feed_url feed_title at it none = some (change_of feed_url feed_title at new it)
  decide_change feed_url feed_title at it (some s) =
      if str_eq s.content_hash (item_hash it)
      then none
      else some (change_of feed_url feed_title at updated it)

  abbrev after_lookup :
      Str → Str → Time → FeedItem → Result (Option ItemState) → Result (Option Change)
  after_lookup feed_url feed_title at it (err e) = err e
  after_lookup feed_url feed_title at it (ok found) =
      ok (decide_change feed_url feed_title at it found)

  unfoldable pub classify :
      Env → Str → Str → Time → FeedItem → World → Result (Option Change) × World
  unfolding decide_change get_item
  classify env feed_url feed_title at it w = (
    after_lookup feed_url feed_title at it
        (get_item (env.db_fault w.ticks) w.db feed_url (item_id it)),
    tick w,
  )

  -- The first error ends the loop, with no change returned.
  unfoldable pub detect_loop :
      Env → Str → Str → Time → List FeedItem → World → Result (List Change) × World
  unfolding classify
  detect_loop env feed_url feed_title at [] w = (ok [], w)
  detect_loop env feed_url feed_title at (it ∷ its) w =
      let (r, w') = classify env feed_url feed_title at it w in
      elim r [
        | err e ↦ (err e, w')
        | ok c ↦
            let (rest, w'') = detect_loop env feed_url feed_title at its w' in (collect c rest, w'')
      ]

  unfoldable pub detect :
      Env → Str → Option ParsedFeed → Time → World → Result (List Change) × World
  unfolding detect_loop sort_items
  detect env feed_url none at w = (ok [], w)
  detect env feed_url (some f) at w = detect_loop env feed_url f.title at (sort_items f.items) w
