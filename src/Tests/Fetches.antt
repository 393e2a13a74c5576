-- ===== src/Tests/Fetches.antt =====
-- Fetches of internal/feed/fetcher.go: one that the server refuses for now, and one of a feed that is
-- known.
use rss2msg.Prelude.{
  ◌≡◌, ◌≢◌, refl, Str, lit, true, false, Option, none, some, [], ◌∷◌, Memᴰ, ◌↔◌, str_eq, decimal,
  is_empty, ◌==◌,
}
use rss2msg.Prelude.Int.{pos}
use rss2msg.Prelude.Map.{lookup}
use rss2msg.Errors.{Err, other, fetch, status, Result, ok, is_retryable}
use rss2msg.Model.{Time}
use rss2msg.Model.Space.{trim_space}
use rss2msg.World.{ParsedFeed, FetchRequest}
use rss2msg.Source.{FeedConfig, RetryConfig}
use rss2msg.FeedCheck.{check_feeds}
use rss2msg.Fetcher.{
  Options, Settings, HttpRequest, Response, request_of, fetch_feed, classify_response,
}
use rss2msg.Fetcher.Retryable.{Transient, fetch_retryable_iff}
use rss2msg.Fetcher.Conditional.{accepted_conditional}
use rss2msg.Tests.Fixtures.{url, feed_config}

abbrev same_name : Str → Str
same_name h = h

abbrev a_date : Time → Str
a_date t = lit "date"

abbrev no_date : Str → Option Time
no_date s = none

abbrev no_items : Str → Result ParsedFeed
no_items body = ok (record { title = []; items = [] })

abbrev built : Str → Option Err
built u = none

-- 503 Service Unavailable
abbrev busy : Response
busy = record { status = 503; header = λ k. []; body = [] }

abbrev overloaded : HttpRequest → Result Response
overloaded req = ok busy

abbrev agent : Options
agent = record { user_agent = lit "rss2msg"; timeout = pos 30 }

abbrev plain : Settings
plain = record { headers = []; timeout = pos 0 }

abbrev known : FetchRequest
known = record { url = url; etag = lit "v1"; last_modified = 7 }

abbrev unavailable : Err
unavailable = fetch status 503 (other (lit "unexpected status 503"))

refused_now :
    (fetch_feed same_name a_date no_date no_items built overloaded agent plain known).1
    ≡ some unavailable
unfolding fetch_feed classify_response decimal
refused_now = refl

fetch_retryable_iff_example :
    (is_retryable unavailable ≡ true)
    ↔ ((built url ≡ none) × Transient (overloaded (request_of same_name a_date agent plain known)))
fetch_retryable_iff_example =
    fetch_retryable_iff no_date no_items same_name a_date built overloaded agent plain known
      unavailable refused_now

abbrev with_token : FeedConfig
with_token = record (feed_config url (pos 3_600_000_000_000)) {
  headers = (lit "Authorization", lit "t") ∷ [];
}

abbrev defaults : RetryConfig
defaults = record { max_attempts = pos 0; base_delay = pos 0; max_delay = pos 0 }

token_accepted :
    check_feeds same_name (lit "default" ∷ []) defaults false (pos 0) false (with_token ∷ []) ≡ none
unfolding check_feeds trim_space str_eq
token_accepted = refl

names_differ : lit "If-None-Match" ≢ lit "If-Modified-Since"
names_differ e = cc

accepted_conditional_example :
    let s : Settings = record { headers = with_token.headers; timeout = pos 0 } in
    let sent = (request_of same_name a_date agent s known).headers in
    (is_empty known.etag ≡ false → lookup (lit "If-None-Match") sent ≡ some (lit "v1"))
    × ((known.last_modified == 0) ≡ false
        → lookup (lit "If-Modified-Since") sent ≡ some (lit "date"))
accepted_conditional_example =
    accepted_conditional same_name a_date (lit "default" ∷ []) defaults false (pos 0) false
      (with_token ∷ []) with_token agent (pos 0) known names_differ token_accepted (Memᴰ.head refl)
