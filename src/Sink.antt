-- ===== src/Sink.antt =====
-- internal/sink/retrywrap.go and internal/sink/composite/composite.go: delivery with retry and dead
-- letter, and the fan-out. A registered sink is a leaf, whose driver is the environment's `publish`.
pub mod Deliver
pub mod Delivered
pub mod Keeps
pub mod NoLoss
use rss2msg.Prelude.{
  ℕ, Str, Bool, true, false, Option, none, some, List, [], ◌∷◌, ◌++◌, length, take, leb, ltb,
  if◌then◌else◌,
}
use rss2msg.Prelude.Int.{ℤ, pos, ltb_ℤ}
use rss2msg.Errors.{Err, children_dropped, dlq_failed, error_text}
use rss2msg.Model.{Change}
use rss2msg.Retry.{Ctx, with_timeout, Config, run}
use rss2msg.World.{Env, World, took, tick, log_event, clock}

pub data BranchState : Type 0 where
  success dlq dropped : BranchState

pub record BranchResult : Type 0 where
  pub state : BranchState
  pub attempts : ℕ
  pub err : Option Err

abbrev pub dlq_error_max_bytes : ℕ
dlq_error_max_bytes = 1024

unfoldable pub truncate : Str → ℕ → Str
truncate s max = if leb (length s) max then s else take max s

-- `Publish` of one sink.
abbrev pub Publish : Type 0
Publish = Ctx → Change → World → Option Err × World

-- The envelope that goes to the dead-letter sink.
unfoldable pub envelope : Str → Err → ℕ → Change → Change
unfolding truncate
envelope sink e attempts c = record c {
  dlq_from_sink = sink;
  dlq_error = truncate (error_text e) dlq_error_max_bytes;
  dlq_attempts = attempts;
}

-- `if r.timeout > 0 { ctx, cancel = context.WithTimeout(ctx, r.timeout) }`
abbrev pub bounded : ℤ → Ctx → World → Ctx
bounded timeout ctx w = if ltb_ℤ (pos 0) timeout then with_timeout ctx timeout w.ticks else ctx

abbrev pub dlq_result : Err → ℕ → Option Err × World → BranchResult × World
dlq_result e n (none, w) = (record { state = dlq; attempts = n; err = some e }, w)
dlq_result e n (some d, w) =
    (record { state = dropped; attempts = n; err = some (dlq_failed e d) }, w)

-- `Deliver` after the retries: `dlq` is the dead-letter sink, if there is one.
unfoldable pub hand_over :
    Str → Option Publish → Ctx → Change → ℕ → Option Err → World → BranchResult × World
unfolding envelope
hand_over sink dead_letter ctx c n none w =
    (record { state = success; attempts = n; err = none }, w)
hand_over sink none ctx c n (some e) w = (record { state = dropped; attempts = n; err = some e }, w)
hand_over sink (some publish) ctx c n (some e) w =
    dlq_result e n (publish ctx (envelope sink e n c) w)

-- `Deliver`
unfoldable pub deliver_with :
    Env → Str → Publish → Option Publish → Config → ℤ → Ctx → Change → World → BranchResult × World
deliver_with env sink primary dead_letter cfg timeout ctx c w =
    let ctx' = bounded timeout ctx w in
    let (r, w') = run (clock env) ctx' cfg (primary ctx' c) w in
    hand_over sink dead_letter ctx' c r.attempts r.err w'

mutual
  -- The publishers that wiring builds: a driver's sink, or a composite of wrapped children.
  pub data Publisher : Type 0 where
    leaf : Str → Publisher
    composite : Str → Branches → Publisher

  -- The children of a composite, each under its name.
  pub data Branches : Type 0 where
    no_branch : Branches
    branch : Str → RetryingPublisher → Branches → Branches

  pub data RetryingPublisher : Type 0 where
    with_retry : Publisher → DeadLetter → Config → ℤ → RetryingPublisher

  pub data DeadLetter : Type 0 where
    no_dlq : DeadLetter
    dlq_to : Publisher → DeadLetter

abbrev pub name : Publisher → Str
name (leaf n) = n
name (composite n bs) = n

-- `if len(dropped) > 0 { return fmt.Errorf(…) }`
abbrev pub composite_result : Str → List Str → Option Err
composite_result sink [] = none
composite_result sink (d ∷ ds) = some (children_dropped sink (d ∷ ds))

abbrev pub note : Str → BranchState → List Str → List Str
note child success ds = ds
note child dlq ds = ds
note child dropped ds = child ∷ ds

-- A driver's sink: the event records that it took the change.
abbrev pub leaf_result : Str → Change → Option Err → World → Option Err × World
leaf_result n c none w = (none, log_event (took n c) w)
leaf_result n c (some e) w = (some e, tick w)

unfoldable mutual
  unfolding deliver_with hand_over

  pub publish : Env → Publisher → Ctx → Change → World → Option Err × World
  publish env (leaf n) ctx c w = leaf_result n c (env.publish n c w.ticks) w
  publish env (composite n bs) ctx c w =
      let (ds, w') = publish_all env bs ctx c w in (composite_result n ds, w')

  -- The loop over the branches; the names of those that were dropped.
  pub publish_all : Env → Branches → Ctx → Change → World → List Str × World
  publish_all env no_branch ctx c w = ([], w)
  publish_all env (branch child r bs) ctx c w =
      let (res, w') = deliver env r ctx c w in
      let (ds, w'') = publish_all env bs ctx c w' in (note child res.state ds, w'')

  pub deliver : Env → RetryingPublisher → Ctx → Change → World → BranchResult × World
  deliver env (with_retry p d cfg timeout) =
      deliver_with env (name p) (publish env p) (dead_letter env d) cfg timeout

  pub dead_letter : Env → DeadLetter → Option (Ctx → Change → World → Option Err × World)
  dead_letter env no_dlq = none
  dead_letter env (dlq_to p) = some (publish env p)
