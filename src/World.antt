-- ===== src/World.antt =====
-- What lies outside the code and what it acts on. The answers of the environment (sinks, feed
-- servers, the database driver, the coordinator, the clock, the scheduler of goroutines) are read
-- from an `Env` by the number of questions asked so far, so each may change from one to the next.
use rss2msg.Prelude.{ℕ, suc, Str, Bool, Option, List, ◌∷◌}
use rss2msg.Prelude.Int.{ℤ}
use rss2msg.Errors.{Err, Result}
use rss2msg.Model.{Time, Change}
use rss2msg.Retry.{Ctx, Clock}
use rss2msg.State.{Db}

-- A feed item as gofeed parses it; `author` is the name of `Author`, and a nil pointer is `none`.
pub record FeedItem : Type 0 where
  pub guid : Str
  pub title : Str
  pub link : Str
  pub description : Str
  pub content : Str
  pub author : Option Str
  pub authors : List (Option Str)
  pub categories : List Str
  pub published : Option Time
  pub updated : Option Time

pub record ParsedFeed : Type 0 where
  pub title : Str
  pub items : List FeedItem

-- `feed.FetchRequest` without the parts of the configuration that do not change between polls.
pub record FetchRequest : Type 0 where
  pub url : Str
  pub etag : Str
  pub last_modified : Time

pub record FetchResult : Type 0 where
  pub status : ℕ
  pub not_modified : Bool
  pub etag : Str
  pub last_modified : Time
  pub feed : Option ParsedFeed

pub record Env : Type 0 where
  pub ctx_err : Ctx → ℕ → Option Err
  pub int64n : ℕ → ℕ → ℕ
  pub select_done : Ctx → ℤ → ℕ → Bool
  pub publish : Str → Change → ℕ → Option Err
  pub db_fault : ℕ → Option Err
  pub try_acquire : Str → ℕ → Result Bool
  pub fetch : FetchRequest → ℕ → FetchResult × Option Err
  pub now : ℕ → Time

-- The observable steps: a sink took a change, or the lease of a feed was taken or released.
pub data Event : Type 0 where
  took : Str → Change → Event
  acquired released : Str → Event

-- `trace` has the latest event first.
pub record World : Type 0 where
  pub ticks : ℕ
  pub db : Db
  pub trace : List Event

abbrev pub tick : World → World
tick w = record w { ticks = suc w.ticks }

abbrev pub log_event : Event → World → World
log_event e w = record w { ticks = suc w.ticks; trace = e ∷ w.trace }

abbrev pub clock : Env → Clock World
clock env = record {
  ctx_err = λ c w. env.ctx_err c w.ticks;
  int64n = λ n w. (env.int64n n w.ticks, tick w);
  select_done = λ c d w. (env.select_done c d w.ticks, tick w);
}
