-- ===== src/Schedule.antt =====
-- internal/scheduler/dynamic.go: reconciling the running feeds with the desired ones. Building a
-- pipeline is the environment's `factory`; each started loop has a serial number, so that a feed
-- which was left running can be told from one that was restarted.
pub mod Reconcile
pub mod Serve
use rss2msg.Prelude.{
  ℕ, suc, ◌+◌, ◌-◌, Str, lit, Bool, true, false, not, Option, none, some, List, [], ◌∷◌, ◌++◌,
  length, is_none, if◌then◌else◌,
}
use native.Mathlib.Decide.{ℕ_discrete}
use rss2msg.Prelude.Int.{ℤ, pos, leb_ℤ}
use rss2msg.Prelude.Map.{lookup, insert, filter_keys, filter_entries}
use rss2msg.Errors.{Err, other, Result, ok, err}
use rss2msg.Source.{FeedConfig}

-- reflect.DeepEqual on two configurations.
unfoldable pub feed_config_discrete : Discrete FeedConfig
feed_config_discrete = hlevel ℕ_discrete

abbrev pub deep_equal : FeedConfig → FeedConfig → Bool
deep_equal a b = elim (feed_config_discrete a b) [ yes e ↦ true | no e ↦ false ]

pub record Running : Type 0 where
  pub cfg : FeedConfig
  pub serial : ℕ
  pub poked : Bool

-- The variable `running`, and the number of loops started so far.
pub record Feeds : Type 0 where
  pub running : List (Str × Running)
  pub started : ℕ

-- `byURL`: of several entries with one URL the last counts.
unfoldable pub by_url : List FeedConfig → List (Str × FeedConfig) → List (Str × FeedConfig)
by_url [] m = m
by_url (fc ∷ fcs) m = by_url fcs (insert fc.url fc m)

abbrev pub runs_as : FeedConfig → Option Running → Bool
runs_as fc none = false
runs_as fc (some rf) = deep_equal rf.cfg fc

-- `if rf, ok := running[url]; ok && reflect.DeepEqual(rf.cfg, fc) { continue }`
abbrev pub must_start : List (Str × Running) → Str → FeedConfig → Bool
must_start running url fc = not (runs_as fc (lookup url running))

module _ (factory : FeedConfig → Option Err) where
  -- Why a feed cannot be started.
  abbrev build_error : FeedConfig → Option Err
  build_error fc =
      if leb_ℤ fc.interval (pos 0)
      then some (other (lit "feed " ++ (fc.url ++ lit ": interval is required (minimum 1s)")))
      else factory fc

  abbrev or_first :
      Option Err
      → Result (List (Str × FeedConfig))
      → Str
      → FeedConfig
      → Result (List (Str × FeedConfig))
  or_first (some e) rest url fc = err e
  or_first none (err e) url fc = err e
  or_first none (ok ts) url fc = ok ((url, fc) ∷ ts)

  -- The first loop: `toStart`, or the error that aborts the reconcile.
  unfoldable pub prebuild :
      List (Str × Running) → List (Str × FeedConfig) → Result (List (Str × FeedConfig))
  prebuild running [] = ok []
  prebuild running ((url, fc) ∷ m) =
      let rest = prebuild running m in
      if must_start running url fc then or_first (build_error fc) rest url fc else rest

-- startFeed, and the entry of `running` for it.
abbrev pub start_feed : Str → FeedConfig → Feeds → Feeds
start_feed url fc s = record {
  running = insert url (record { cfg = fc; serial = s.started; poked = false }) s.running;
  started = suc s.started;
}

-- The last loop: a feed that runs is stopped and restarted, any other is started. `added` and
-- `changed` count along.
unfoldable pub start_all : List (Str × FeedConfig) → ℕ → ℕ → Feeds → (ℕ × ℕ) × Feeds
start_all [] added changed s = ((added, changed), s)
start_all ((url, fc) ∷ ts) added changed s =
    let fresh = is_none (lookup url s.running) in
    start_all ts (if fresh then suc added else added) (if fresh then changed else suc changed)
      (start_feed url fc s)

-- What a reconcile reports: OnError, or OnReconcile with its three counts.
pub data Report : Type 0 where
  aborted : Err → Report
  applied : (added removed changed : ℕ) → Report

abbrev pub is_desired : List (Str × FeedConfig) → Str → Bool
is_desired m url = not (is_none (lookup url m))

abbrev pub apply :
    List (Str × FeedConfig) → Result (List (Str × FeedConfig)) → Feeds → Report × Feeds
apply m (err e) s = (aborted e, s)
apply m (ok ts) s =
    let kept = filter_keys (is_desired m) s.running in
    let (counts, s') = start_all ts 0 0 (record s { running = kept }) in
    (applied counts.0 (length s.running - length kept) counts.1, s')

unfoldable pub reconcile :
    (FeedConfig → Option Err) → Result (List FeedConfig) → Feeds → Report × Feeds
unfolding by_url prebuild start_all
reconcile factory (err e) s = (aborted e, s)
reconcile factory (ok fcs) s = let m = by_url fcs [] in apply m (prebuild factory s.running m) s

-- What the select loop of `ServeDynamic` takes up, and the loop of a feed that takes a pending poke.
-- The provider and the factory answer anew on each change.
pub data Event : Type 0 where
  changes : (FeedConfig → Option Err) → Result (List FeedConfig) → Event
  poll_now took_poke : Str → Event

-- The poke channel of a feed holds one signal.
abbrev pub set_poked : Bool → Str → Option Running → List (Str × Running) → List (Str × Running)
set_poked b url none running = running
set_poked b url (some rf) running = insert url (record rf { poked = b }) running

unfoldable pub serve_step : Event → Feeds → Feeds
unfolding reconcile
serve_step (changes factory r) s = (reconcile factory r s).1
serve_step (poll_now url) s = record s {
  running = set_poked true url (lookup url s.running) s.running;
}
serve_step (took_poke url) s = record s {
  running = set_poked false url (lookup url s.running) s.running;
}

-- `ServeDynamic` up to the end of its context; the first event is the reconcile at the start.
unfoldable pub serve : List Event → Feeds → Feeds
unfolding serve_step
serve [] s = s
serve (e ∷ es) s = serve es (serve_step e s)
