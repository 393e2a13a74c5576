-- ===== src/Cleanup.antt =====
-- internal/statecleanup/statecleanup.go: the periodic sweep of the state store, over the SQLite
-- store. A cutoff before the first instant is 0: no row is older than either.
pub mod Sweep
use rss2msg.Prelude.{
  ℕ, ◌+◌, ◌-◌, Bool, true, false, ◌||◌, Option, none, some, List, [], ◌∷◌, if◌then◌else◌,
}
use rss2msg.Prelude.Int.{ℤ, pos, pos_part, leb_ℤ}
use rss2msg.Errors.{Err, Result, ok, err}
use rss2msg.Model.{Time}
use rss2msg.State.{Db, prune_items_before, prune_feed_meta_before}

-- What `onResult` is told.
pub record Swept : Type 0 where
  pub removed : ℕ
  pub error : Option Err

abbrev after_meta_prune : ℕ → Result ℕ × Db → Swept × Db
after_meta_prune n (err e, db) = (record { removed = n; error = some e }, db)
after_meta_prune n (ok k, db) = (record { removed = n + k; error = none }, db)

abbrev after_item_prune : Option Err → Time → Result ℕ × Db → Swept × Db
after_item_prune fault cutoff (err e, db) = (record { removed = 0; error = some e }, db)
after_item_prune fault cutoff (ok n, db) =
    after_meta_prune n (prune_feed_meta_before fault db cutoff)

-- One sweep: the items first, then the feed metadata.
unfoldable pub sweep : Option Err → Option Err → Time → Db → Swept × Db
unfolding prune_items_before prune_feed_meta_before
sweep items_fault meta_fault cutoff db =
    after_item_prune meta_fault cutoff (prune_items_before items_fault db cutoff)

-- A tick of `Run`: the clock, and what the two statements meet.
pub record Tick : Type 0 where
  pub now : Time
  pub items_fault : Option Err
  pub meta_fault : Option Err

unfoldable pub sweeps : ℕ → List Tick → Db → List Swept × Db
unfolding sweep
sweeps ttl [] db = ([], db)
sweeps ttl (t ∷ ts) db =
    let (r, db') = sweep t.items_fault t.meta_fault (t.now - ttl) db in
    let (rs, db'') = sweeps ttl ts db' in (r ∷ rs, db'')

-- `Run` up to the end of its context; the first tick is the sweep at the start.
unfoldable pub run_cleanup : ℤ → ℤ → List Tick → Db → List Swept × Db
unfolding sweeps
run_cleanup interval ttl ts db =
    if leb_ℤ interval (pos 0) || leb_ℤ ttl (pos 0) then ([], db) else sweeps (pos_part ttl) ts db
