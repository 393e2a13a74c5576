-- ===== src/FeedSink/Store.antt =====
-- internal/sink/feed/store_memory.go: the store of the changes that are served. The order in which
-- the runtime ranges over a map is a parameter.
use rss2msg.Prelude.{
  ℕ, zero, suc, Str, not, List, [], ◌∷◌, ◌++◌, map, length, take, ltb, if◌then◌else◌,
}
use rss2msg.Prelude.Map.{insert, filter_keys}
use rss2msg.Model.{Change}
use rss2msg.SinkGraph.{mem_str}

-- `max` is positive: the sink replaces any other number by its default.
pub record MemoryStore : Type 0 where
  pub max : ℕ
  pub by_key : List (Str × Change)

unfoldable new_memory_store : ℕ → MemoryStore
new_memory_store max = record { max = max; by_key = [] }

unfoldable pub key : Change → Str
key c = c.feed_url ++ (10 ∷ c.item_id)

abbrev pub values : List (Str × Change) → List Change
values [] = []
values ((k, c) ∷ m) = c ∷ values m

abbrev pub drop : ℕ → List Change → List Change
drop zero cs = cs
drop (suc n) [] = []
drop (suc n) (c ∷ cs) = drop n cs

unfoldable pub insert_newest : Change → List Change → List Change
insert_newest c [] = c ∷ []
insert_newest c (d ∷ ds) =
    let rest = insert_newest c ds in
    if ltb c.detected_at d.detected_at then d ∷ rest else c ∷ d ∷ ds

-- sort.Slice with `DetectedAt.After`. It need not be stable: a change of order among the changes of
-- one instant is a change of the order in which the map is ranged over.
unfoldable pub newest_first : List Change → List Change
unfolding insert_newest
newest_first [] = []
newest_first (c ∷ cs) = insert_newest c (newest_first cs)

abbrev pub keys : List Change → List Str
keys cs = map key cs

module _ (ranged : List Change → List Change) where
  -- `all` of pruneLocked and of Recent, sorted.
  unfoldable pub sorted : List (Str × Change) → List Change
  unfolding newest_first
  sorted m = newest_first (ranged (values m))

  -- The deletes of the loop, all at once.
  unfoldable pub prune_locked : MemoryStore → MemoryStore
  unfolding sorted mem_str
  prune_locked m =
      let gone = keys (drop m.max (sorted m.by_key)) in
      record m { by_key = filter_keys (λ k. not (mem_str k gone)) m.by_key }

  unfoldable pub write : Change → MemoryStore → MemoryStore
  unfolding prune_locked key
  write c m =
      let m' = record m { by_key = insert (key c) c m.by_key } in
      if ltb m.max (length m'.by_key) then prune_locked m' else m'

  unfoldable pub recent : ℕ → MemoryStore → List Change
  unfolding sorted
  recent n m = let all = sorted m.by_key in if ltb n (length all) then take n all else all
