-- ===== src/FeedSink/Render.antt =====
-- internal/sink/feed/render.go and id.go: a feed of changes, and the link of a feed to itself. The
-- documents of github.com/gorilla/feeds and the escapes of encoding/xml are parameters.
use rss2msg.Prelude.{
  ℕ, zero, suc, Str, lit, Bool, true, false, not, ◌&&◌, ◌%◌, ◌/◌, Option, none, some, List, [], ◌∷◌,
  ◌++◌, length, take, ltb, leb, ◌==◌, is_empty, if◌then◌else◌,
}
use rss2msg.Prelude.Bytes.{find_in}
use rss2msg.Model.{Time, Change}

pub record FeedMeta : Type 0 where
  pub title : Str
  pub link : Str
  pub description : Str

-- A feeds.Item, as far as it is filled in.
pub record Item : Type 0 where
  pub title : Str
  pub id : Str
  pub is_perma_link : Str
  pub description : Str
  pub content : Str
  pub created : Time
  pub updated : Time
  pub link : Option Str
  pub author : Option Str

pub record Document : Type 0 where
  pub title : Str
  pub link : Str
  pub description : Str
  pub updated : Time
  pub items : List Item

abbrev summary_truncate : ℕ
summary_truncate = 512

-- utf8.RuneStart: the byte is not of the form 10xxxxxx.
abbrev rune_start : ℕ → Bool
rune_start b = not (b / 64 % 4 == 2)

-- `s[n]`, for an index within the string
abbrev byte_at : ℕ → Str → ℕ
byte_at n [] = 0
byte_at zero (c ∷ s) = c
byte_at (suc n) (c ∷ s) = byte_at n s

-- The loop of truncate: the last start of a rune at or before an index.
unfoldable back_to_start : ℕ → Str → ℕ
back_to_start zero s = zero
back_to_start (suc n) s =
    let rest = back_to_start n s in if rune_start (byte_at (suc n) s) then suc n else rest

unfoldable pub truncate : Str → ℕ → Str
unfolding back_to_start
truncate s max = if leb (length s) max then s else take (back_to_start max s) s

abbrev or_time : Option Time → Time → Time
or_time none t = t
or_time (some u) t = u

abbrev link_of : Str → Option Str
link_of s = if is_empty s then none else some s

abbrev first_author : List Str → Option Str
first_author [] = none
first_author (a ∷ authors) = some a

-- `f.Updated` after the loop.
unfoldable pub latest : Time → List Change → Time
latest t [] = t
latest t (c ∷ cs) = latest (if ltb t c.detected_at then c.detected_at else t) cs

module _ (sha256_hex : Str → Str) where
  -- `syntheticID`
  abbrev synthetic_id : Str → Str → Str
  synthetic_id feed_url item_id = lit "urn:rss2msg:" ++ sha256_hex (feed_url ++ (10 ∷ item_id))

  unfoldable pub build_item : Change → Item
  unfolding truncate
  build_item c =
      let created = or_time c.published_at c.detected_at in
      record {
        title = if is_empty c.title then lit "(untitled)" else c.title;
        id = synthetic_id c.feed_url c.item_id;
        is_perma_link = lit "false";
        description =
            if is_empty c.summary && not (is_empty c.content)
            then truncate c.content summary_truncate
            else c.summary;
        content = c.content;
        created = created;
        updated = or_time c.updated_at created;
        link = link_of c.link;
        author = first_author c.authors;
      }

  unfoldable pub build_items : List Change → List Item
  unfolding build_item
  build_items [] = []
  build_items (c ∷ cs) = build_item c ∷ build_items cs

  abbrev now_if_zero : Time → Time → Time
  now_if_zero now t = if t == 0 then now else t

  unfoldable pub build_feed : Time → FeedMeta → List Change → Document
  unfolding build_items latest
  build_feed now m changes = record {
    title = m.title;
    link = m.link;
    description = m.description;
    updated = now_if_zero now (latest 0 changes);
    items = build_items changes;
  }

-- `s[n:]`
abbrev drop_bytes : ℕ → Str → Str
drop_bytes zero s = s
drop_bytes (suc n) [] = []
drop_bytes (suc n) (c ∷ s) = drop_bytes n s

-- The end of the tag that the second part starts with: what to put before its `>` and after it.
abbrev in_tag : Str → Str → Str → Option (Str × Str) → Option Str
in_tag before_end after_end a none = none
in_tag before_end after_end a (some (x, y)) =
    some (a ++ (x ++ (before_end ++ (62 ∷ (after_end ++ drop_bytes 1 y)))))

abbrev open_tag : Str → Str → Option (Str × Str) → Option Str
open_tag before_end after_end none = none
open_tag before_end after_end (some (a, b)) = in_tag before_end after_end a (find_in (62 ∷ []) b)

abbrev after_channel : Str → Str → Option (Str × Str) → Str
after_channel link body none = body
after_channel link body (some (a, b)) = a ++ (lit "<channel>" ++ (link ++ drop_bytes 9 b))

abbrev or_body : Str → Option Str → Str
or_body body none = body
or_body body (some b) = b

abbrev contains : Str → Str → Bool
contains pat s = elim (find_in pat s) [ none ↦ false | some _ ↦ true ]

module _ (escape_xml : Str → Str) where
  abbrev atom_link : Str → Str
  atom_link self_url =
      10 ∷ (lit "  <link href=\"" ++ (escape_xml self_url ++ lit "\" rel=\"self\"></link>"))

  unfoldable pub inject_atom_self : Str → Str → Str
  unfolding find_in
  inject_atom_self body self_url =
      let linked = open_tag [] (atom_link self_url) (find_in (lit "<feed") body) in
      if is_empty self_url then body else or_body body linked

  abbrev rss_link : Str → Str
  rss_link self_url =
      10
      ∷ (lit "    <atom:link href=\""
          ++ (escape_xml self_url
              ++ lit "\" rel=\"self\" type=\"application/rss+xml\"></atom:link>"))

  abbrev atom_namespace : Str
  atom_namespace = lit " xmlns:atom=\"http://www.w3.org/2005/Atom\""

  abbrev channel_linked : Str → Str → Option Str → Str
  channel_linked self_url body none = body
  channel_linked self_url body (some named) =
      let full = if contains (lit "xmlns:atom=") body then body else named in
      after_channel (rss_link self_url) full (find_in (lit "<channel>") full)

  unfoldable pub inject_rss_self : Str → Str → Str
  unfolding find_in
  inject_rss_self body self_url =
      let named = open_tag atom_namespace [] (find_in (lit "<rss") body) in
      if is_empty self_url then body else channel_linked self_url body named
