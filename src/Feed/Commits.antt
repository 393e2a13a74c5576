-- ===== src/Feed/Commits.antt =====
-- The changes that internal/feed/detector.go finds in a state, and the state once they are recorded.

use rss2msg.Prelude.{
  ℕ, ◌≡◌, refl, ◌∙◌, ap, Str, false, Option, none, some, List, [], ◌∷◌, All, arith, str_eq,
  str_eq_iff, str_eq_refl, if◌then◌else◌,
}
use rss2msg.Errors.{Result, ok}
use rss2msg.Model.{Time, Change}
use rss2msg.State.{ItemState, ItemRow, select_item, upsert_item}
use rss2msg.State.Items.{select-insert_item}
use rss2msg.World.{FeedItem, Env, World, tick}
use rss2msg.Feed.{Digest, item_id, item_hash, decide_change, collect, detect_loop}

pub ne_sym : (a b : Str) → str_eq a b ≡ false → str_eq b a ≡ false
ne_sym a b h = ground (arith, str_eq_iff a b, str_eq_iff b a)

-- The changes found from a fixed state, when the state store answers every lookup.
module _ (dig : Digest) (feed_url feed_title : Str) (at : Time) where
  abbrev collect_some : Option Change → List Change → List Change
  collect_some none cs = cs
  collect_some (some c) cs = c ∷ cs

  abbrev pub changes_of : List ItemRow → List FeedItem → List Change
  changes_of rs [] = []
  changes_of rs (it ∷ its) =
      collect_some
        (decide_change dig feed_url feed_title at it (select_item feed_url (item_id dig it) rs))
        (changes_of rs its)

  pub detect_loop-changes_of :
      (env : Env) (its : List FeedItem) (w : World)
      → ((n : ℕ) → env.db_fault n ≡ none)
      → (detect_loop dig env feed_url feed_title at its w).0 ≡ ok (changes_of w.db.seen_items its)
  unfolding detect_loop
  detect_loop-changes_of env [] w h = refl
  detect_loop-changes_of env (it ∷ its) w h =
      rw (h w.ticks, detect_loop)
        (finish (decide_change dig feed_url feed_title at it found)
          (detect_loop dig env feed_url feed_title at its (tick w)).0
          (detect_loop-changes_of env its (tick w) h))
    where
      found : Option ItemState
      found = select_item feed_url (item_id dig it) w.db.seen_items

      finish :
          (c : Option Change) (r : Result (List Change)) {cs : List Change}
          → r ≡ ok cs
          → collect c r ≡ ok (collect_some c cs)
      finish none r e = rw e
      finish (some c) r e = rw e

  -- Recording a change, as the pipeline does once it is delivered.
  abbrev pub commit : Change → List ItemRow → List ItemRow
  commit c rs =
      (upsert_item none (record { seen_items = rs; feed_meta = [] }) feed_url c.item_id
        c.content_hash c.detected_at).1.seen_items

  abbrev pub commit_all : List Change → List ItemRow → List ItemRow
  commit_all [] rs = rs
  commit_all (c ∷ cs) rs = commit_all cs (commit c rs)

  -- The stored state of an item has the item's hash.
  pub record IsSeen (it : FeedItem) (s : Option ItemState) : Type 0 where
    pub state : ItemState
    pub stored : s ≡ some state
    pub same : state.content_hash ≡ item_hash dig it

  pub decide-IsSeen :
      (it : FeedItem) (s : Option ItemState)
      → IsSeen it s
      → decide_change dig feed_url feed_title at it s ≡ none
  unfolding decide_change
  decide-IsSeen it s h = rw (h.stored, h.same, str_eq_refl (item_hash dig it))

  pub changes_of-nil :
      (rs : List ItemRow) (its : List FeedItem)
      → All (λ it. IsSeen it (select_item feed_url (item_id dig it) rs)) its
      → changes_of rs its ≡ []
  changes_of-nil rs [] h = refl
  changes_of-nil rs (it ∷ its) h = rw (decide-IsSeen it _ h.0) (changes_of-nil rs its h.1)

  -- The state of one item after a list of commits.
  abbrev pub latest : Str → List Change → Option ItemState → Option ItemState
  latest i [] s = s
  latest i (c ∷ cs) s = latest i cs (
      if str_eq c.item_id i
      then some (record { content_hash = c.content_hash; last_seen_at = c.detected_at })
      else s)

  pub select-commit :
      (i : Str) (c : Change) (rs : List ItemRow)
      → select_item feed_url i (commit c rs) ≡ (
          if str_eq c.item_id i
          then some (record { content_hash = c.content_hash; last_seen_at = c.detected_at })
          else select_item feed_url i rs)
  unfolding upsert_item
  select-commit i c rs = rw (
    select-insert_item feed_url i
        (record {
          feed_url = feed_url;
          item_id = c.item_id;
          content_hash = c.content_hash;
          last_seen_at = c.detected_at;
        })
        rs,
    str_eq_refl feed_url,
  )

  pub select-commit_all :
      (i : Str) (cs : List Change) (rs : List ItemRow)
      → select_item feed_url i (commit_all cs rs) ≡ latest i cs (select_item feed_url i rs)
  select-commit_all i [] rs = refl
  select-commit_all i (c ∷ cs) rs =
      select-commit_all i cs (commit c rs) ∙ ap (latest i cs) (select-commit i c rs)
