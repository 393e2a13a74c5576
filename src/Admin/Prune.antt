-- ===== src/Admin/Prune.antt =====
-- What a prune without a body removes where retention is off (internal/admin/handlers.go).
use rss2msg.Prelude.{
  ◌-◌, ◌≡◌, refl, Str, Bool, true, false, ◌||◌, if◌then◌else◌, none, some, List, [], ◌∷◌, arith,
  Bool-cases, inl, inr,
}
use rss2msg.Prelude.Int.{ℤ, pos, leb_ℤ}
use rss2msg.Errors.{Result, ok}
use rss2msg.Model.{Time}
use rss2msg.State.{
  ItemState, ItemRow, Db, is_item, older, select_item, get_item, keep_items, prune_items_before,
  prune_feed_meta_before,
}
use rss2msg.Cleanup.{Tick, sweeps, run_cleanup}
use rss2msg.Admin.{PruneRequest, handle_prune}

-- What is left was seen in the second of the cutoff or later.
kept_recent :
    (f i : Str) (cutoff : Time) (rs : List ItemRow) (s : ItemState)
    → select_item f i (keep_items cutoff rs) ≡ some s
    → older s.last_seen_at cutoff ≡ false
unfolding select_item keep_items
kept_recent f i cutoff [] s h = absurd (cc)
kept_recent f i cutoff (r ∷ rs) s h = elim (Bool-cases (older r.last_seen_at cutoff)) [
  | inl e ↦ kept_recent f i cutoff rs s (rw e at h)
  | inr e ↦ elim (Bool-cases (is_item f i r)) [
    | inl q ↦
        let it : ◌≡◌ {A = ItemState}
            (record { content_hash = r.content_hash; last_seen_at = r.last_seen_at }) s =
          cc (rw (e, q) at h) in
        rw (← it) e
    | inr q ↦ kept_recent f i cutoff rs s (rw (e, q) at h)
  ]
]

-- Where retention is off, as by default, the periodic sweeps remove nothing; but a prune whose request
-- names no age succeeds and leaves no item that was last seen before the second of the prune.
pub prune_forgets :
    (parse : Str → Result ℤ) (now : Time) (db : Db) (interval : ℤ) (ticks : List Tick)
    → let no_ages : PruneRequest = record { items_older_than = []; feed_meta_older_than = [] } in
      let (answer, db') = handle_prune parse (pos 0) none none no_ages now db in
      ((run_cleanup interval (pos 0) ticks db).1 ≡ db)
      × (answer.0 ≡ 200)
      × ((f i : Str) (s : ItemState)
          → get_item none db' f i ≡ ok (some s)
          → older s.last_seen_at now ≡ false)
unfolding run_cleanup handle_prune prune_items_before prune_feed_meta_before get_item
prune_forgets parse now db interval ticks = (
  off (leb_ℤ interval (pos 0)),
  refl,
  λ f i s h.
      let now_is : now - 0 ≡ now = omega arith in
      kept_recent f i now db.seen_items s (cc (rw now_is at h)),
)
  where
    off : (b : Bool) → (if b || true then ([], db) else sweeps 0 ticks db).1 ≡ db
    off true = refl
    off false = refl
