-- ===== src/Tests/Fleet.antt =====
-- A fleet of three members.

use rss2msg.Prelude.{
  none, Option, true, ◌≡◌, refl, Str, false, some, List, [], ◌∷◌, ◌↔◌, Memᴰ, All, str_lt, str_eq,
}
use rss2msg.Assign.{score, owner, owned, in_set}
use rss2msg.Assign.Owner.{outranks, owner_iff}
use rss2msg.Assign.Fleet.{owned_cover}
use rss2msg.Errors.{ok}
use rss2msg.Model.{Time}
use rss2msg.State.{FeedMeta}
use rss2msg.Source.{FeedConfig}
use rss2msg.Ownership.{urls}
use rss2msg.Prelude.Int.{pos}
use rss2msg.Admin.Views.{FeedView, shown, handle_feeds}
use rss2msg.Admin.Owned.{marked, views-owned}
use rss2msg.Tests.Fixtures.{sum64, member_a, member_b, url, feed_config}

abbrev fleet : List Str
fleet = member_a ∷ member_b ∷ []

owner_of_url : owner sum64 url fleet ≡ some member_b
unfolding owner str_lt score
owner_of_url = refl

owner_iff_example :
    (owner sum64 url fleet ≡ some member_b)
    ↔ (Memᴰ member_b fleet × All (λ m. outranks sum64 url m member_b ≡ false) fleet)
owner_iff_example = owner_iff sum64 url fleet member_b

owned_cover_example : (o : Str) × Memᴰ o fleet × Memᴰ url (owned sum64 o (url ∷ []) fleet)
owned_cover_example = owned_cover sum64 url member_a (url ∷ []) (member_b ∷ []) (Memᴰ.head refl)

abbrev watched : List FeedConfig
watched = feed_config url (pos 60) ∷ feed_config member_a (pos 60) ∷ []

abbrev text_of : Time → Str
text_of t = []

abbrev no_meta : Str → Option FeedMeta
no_meta u = none

b-member : in_set member_b fleet ≡ true
unfolding in_set str_eq
b-member = refl

views-owned_example :
    (vs : List FeedView) × (handle_feeds sum64 text_of no_meta url
        (some (member_b, fleet))
        (ok watched)
      ≡ shown vs)
    × (marked vs ≡ owned sum64 member_b (urls watched) fleet)
views-owned_example =
    views-owned sum64 text_of no_meta url member_b member_a (member_b ∷ []) watched b-member
