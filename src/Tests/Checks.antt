-- ===== src/Tests/Checks.antt =====
-- A sweep of the store, a converted list of specifications, and accepted feeds.
use rss2msg.Prelude.{◌≡◌, refl, Str, lit, false, none, List, [], ◌∷◌, All, str_eq}
use rss2msg.Prelude.Int.{ℤ, pos}
use rss2msg.Errors.{Result, ok}
use rss2msg.Model.Space.{trim_space}
use rss2msg.State.{Db}
use rss2msg.Cleanup.{sweep}
use rss2msg.Source.{FeedConfig, RetryConfig}
use rss2msg.Source.Spec.{FeedSpec, specs_to_configs}
use rss2msg.FeedCheck.{check_feeds}
use rss2msg.FeedCheck.Accepted.{IsUsable, check_feeds-IsUsable}
use rss2msg.Tests.Fixtures.{url, feed_config}

abbrev stored : Db
stored = record {
  seen_items =
      record {
        feed_url = url;
        item_id = lit "o";
        content_hash = lit "1";
        last_seen_at = 1_000_000_000;
      }
      ∷ record {
        feed_url = url;
        item_id = lit "n";
        content_hash = lit "2";
        last_seen_at = 9_000_000_000;
      }
      ∷ [];
  feed_meta =
      record { feed_url = lit "gone"; etag = []; last_modified = none; updated_at = 1_000_000_000 }
      ∷ [];
}

two_removed : (sweep none none 2_000_000_000 stored).0.removed ≡ 2
unfolding sweep
two_removed = refl

no_error : (sweep none none 2_000_000_000 stored).0.error ≡ none
unfolding sweep
no_error = refl

-- Every duration is an hour.
abbrev hour : Str → Result ℤ
hour s = ok (pos 3_600_000_000_000)

abbrev spec : FeedSpec
spec = record { url = url; interval = lit "1h"; sinks = []; http = none }

abbrev hourly : FeedConfig
hourly = feed_config url (pos 3_600_000_000_000)

spec_converts : specs_to_configs hour (spec ∷ []) ≡ ok (hourly ∷ [])
unfolding specs_to_configs trim_space
spec_converts = refl

abbrev as_is : Str → Str
as_is h = h

abbrev declared : List Str
declared = lit "default" ∷ []

abbrev no_retry : RetryConfig
no_retry = record { max_attempts = pos 0; base_delay = pos 0; max_delay = pos 0 }

hourly_accepted : check_feeds as_is declared no_retry false (pos 0) false (hourly ∷ []) ≡ none
unfolding check_feeds trim_space str_eq
hourly_accepted = refl

check_feeds-IsUsable_example : All (IsUsable as_is declared) (hourly ∷ [])
check_feeds-IsUsable_example =
    check_feeds-IsUsable as_is declared no_retry false (pos 0) false (hourly ∷ []) hourly_accepted
