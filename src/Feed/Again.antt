-- ===== src/Feed/Again.antt =====
-- Detection in internal/feed/detector.go against a state that already holds its changes.
use rss2msg.Prelude.{◌≡◌, Str, false, List, [], ◌∷◌, All, str_eq}
use rss2msg.Model.{Time, Change}
use rss2msg.State.{ItemState}
use rss2msg.World.{FeedItem, World}
use rss2msg.Feed.{Digest, item_id}

module _ (dig : Digest) (feed_url feed_title : Str) (at : Time) where
  -- No two items of the feed have one identity.
  abbrev DistinctIds : List FeedItem → Type 0
  DistinctIds [] = Unit {0}
  DistinctIds (x ∷ xs) =
      All (λ y. str_eq (item_id dig x) (item_id dig y) ≡ false) xs × DistinctIds xs

  abbrev state_of : Change → ItemState
  state_of c = record { content_hash = c.content_hash; last_seen_at = c.detected_at }
