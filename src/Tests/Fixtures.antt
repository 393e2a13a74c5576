-- ===== src/Tests/Fixtures.antt =====
-- Concrete members, feeds, changes and environments for the tests.
use rss2msg.Prelude.{ℕ, ◌+◌, ◌%◌, Str, lit, true, false, none, some, [], ◌∷◌, if◌then◌else◌, ltb}
use rss2msg.Prelude.Int.{ℤ, pos}
use rss2msg.Errors.{Err, other, ok}
use rss2msg.Model.{Change, new}
use rss2msg.Retry.{Config}
use rss2msg.State.{Db}
use rss2msg.World.{FeedItem, ParsedFeed, FetchResult, Env, World}
use rss2msg.Sink.{
  Publisher, leaf, composite, no_branch, branch, RetryingPublisher, with_retry, no_dlq, dlq_to,
}
use rss2msg.Source.{FeedConfig}
use rss2msg.Feed.{Digest}
use rss2msg.Pipeline.{Pipeline}

-- A hash that adds up the bytes.
abbrev pub sum64 : Str → ℕ
sum64 [] = 0
sum64 (x ∷ s) = x + sum64 s

abbrev pub member_a : Str
member_a = lit "a"

abbrev pub member_b : Str
member_b = lit "b"

abbrev pub url : Str
url = lit "u"

abbrev pub change : Change
change = record {
  schema = 1;
  feed_url = url;
  feed_title = lit "T";
  item_id = lit "g";
  kind = new;
  title = lit "t";
  link = [];
  authors = [];
  summary = [];
  content = [];
  categories = [];
  published_at = none;
  updated_at = none;
  content_hash = lit "h";
  detected_at = 7;
  dlq_from_sink = [];
  dlq_error = [];
  dlq_attempts = 0;
}

abbrev pub item : FeedItem
item = record {
  guid = lit "g";
  title = lit "t";
  link = [];
  description = [];
  content = lit " body ";
  author = none;
  authors = none ∷ some (lit "ann") ∷ [];
  categories = [];
  published = some 5;
  updated = none;
}

abbrev pub older_item : FeedItem
older_item = record item { guid = lit "o"; published = some 2 }

abbrev pub parsed : ParsedFeed
parsed = record { title = lit "T"; items = item ∷ older_item ∷ [] }

abbrev pub fetched_once : FetchResult
fetched_once = record {
  status = 200;
  not_modified = false;
  etag = lit "e1";
  last_modified = 0;
  feed = some parsed;
}

abbrev pub not_new : FetchResult
not_new = record {
  status = 304;
  not_modified = true;
  etag = lit "e1";
  last_modified = 0;
  feed = none;
}

-- Three attempts, of a second between them at most.
abbrev pub three_times : Config
three_times = record {
  max_attempts = pos 3;
  base_delay = pos 100;
  max_delay = pos 1000;
  retryable = none;
}

abbrev pub down : Err
down = other (lit "down")

-- The sink `bad` fails, every other takes what it is given; the feed is there; nothing else fails.
abbrev pub env : Env
env = record {
  ctx_err = λ c n. none;
  int64n = λ d n. 0;
  select_done = λ c d n. false;
  publish = λ s c n. elim s [ [] ↦ none | x ∷ t ↦ if ltb x 99 then some down else none ];
  db_fault = λ n. none;
  try_acquire = λ f n. ok true;
  fetch = λ r n. elim r.etag [ [] ↦ (fetched_once, none) | x ∷ t ↦ (not_new, none) ];
  now = λ n. n;
}

abbrev pub good_sink : Publisher
good_sink = leaf (lit "good")

abbrev pub bad_sink : Publisher
bad_sink = leaf (lit "bad")

abbrev pub plain : RetryingPublisher
plain = with_retry good_sink no_dlq three_times (pos 0)

-- A failing sink with a dead letter.
abbrev saved : RetryingPublisher
saved = with_retry bad_sink (dlq_to good_sink) three_times (pos 50)

-- A failing sink without one.
abbrev pub lost : RetryingPublisher
lost = with_retry bad_sink no_dlq three_times (pos 0)

abbrev pub fan_out : Publisher
fan_out = composite (lit "fan") (branch (lit "good") plain (branch (lit "bad") saved no_branch))

abbrev pub pipeline : Pipeline
pipeline = record {
  sinks = (lit "good", plain) ∷ (lit "bad", saved) ∷ [];
  fetch_retry = three_times;
}

abbrev pub dropping : Pipeline
dropping = record pipeline { sinks = (lit "good", plain) ∷ (lit "bad", lost) ∷ [] }

abbrev pub digest : Digest
digest = record { sha256_hex = λ s. s; rfc3339 = λ t. (48 + t % 10) ∷ [] }

abbrev empty_db : Db
empty_db = record { seen_items = []; feed_meta = [] }

abbrev pub start : World
start = record { ticks = 0; db = empty_db; trace = [] }

abbrev pub feed_config : Str → ℤ → FeedConfig
feed_config u d = record {
  url = u;
  interval = d;
  sinks = [];
  timeout = pos 0;
  headers = [];
  retry = record { max_attempts = pos 0; base_delay = pos 0; max_delay = pos 0 };
}
