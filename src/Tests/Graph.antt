-- ===== src/Tests/Graph.antt =====
-- Composite sinks with and without a cycle.
use rss2msg.Prelude.{
  ℕ, ◌≡◌, ◌≢◌, refl, ◌↔◌, Str, lit, true, false, Option, none, some, List, [], ◌∷◌, is_none, str_eq,
  if◌then◌else◌,
}
use rss2msg.Prelude.Map.{lookup}
use rss2msg.SinkGraph.{SinkConfig, composite_driver, composite_cycle, dfs, exhausted, check_sinks}
use rss2msg.Prelude.{Memᴰ}
use rss2msg.Prelude.Int.{pos}
use rss2msg.SinkGraph.{is_composite}
use rss2msg.Wire.{find_sink, link}
use rss2msg.Sink.{Publisher, publish}
use rss2msg.Wire.Linked.{PlainDeadLetters, link_checked}
use rss2msg.Wire.Follow.{follow}
use rss2msg.Wire.Endless.{Reached, dead_letter_endless}
use rss2msg.World.{Env, World}
use rss2msg.Retry.{Ctx}
use rss2msg.Model.{Change}
use rss2msg.Errors.{other}
use rss2msg.Tests.Fixtures.{three_times, env}
use rss2msg.SinkGraph.Cycle.{IsFinite}
use rss2msg.SinkGraph.Checked.{composite_cycle_iff}

-- `c` fans out to `d` and a leaf, and `d` to a leaf.
abbrev nested : List (Str × List Str)
nested = (lit "c", lit "d" ∷ lit "x" ∷ []) ∷ (lit "d", lit "y" ∷ []) ∷ []

c-composite : is_none (lookup (lit "c") nested) ≡ false
unfolding lookup str_eq
c-composite = refl

composite_cycle_iff_example :
    (dfs nested 3 (lit "c") [] ≢ exhausted)
    × ((composite_cycle (lit "c") nested ≡ []) ↔ IsFinite nested (lit "c"))
composite_cycle_iff_example = composite_cycle_iff nested (lit "c") c-composite

abbrev looped : List (Str × List Str)
looped = (lit "c", lit "d" ∷ []) ∷ (lit "d", lit "c" ∷ []) ∷ []

looped_text : composite_cycle (lit "c") looped ≡ lit "c -> d -> c"
unfolding composite_cycle str_eq lookup
looped_text = refl

abbrev leaf : SinkConfig
leaf = record { name = lit "a"; driver = lit "stdout"; dead_letter = lit "c"; children = [] }

abbrev fan : SinkConfig
fan = record {
  name = lit "c";
  driver = composite_driver;
  dead_letter = [];
  children = lit "a" ∷ [];
}

-- The dead letter of `a` is the composite that `a` is a child of, and the checks pass.
dead_letter_loop : check_sinks (leaf ∷ fan ∷ []) ≡ none
unfolding check_sinks str_eq rss2msg.Model.Space.trim_space lookup rss2msg.Prelude.Map.insert
dead_letter_loop = refl

abbrev declared : List SinkConfig
declared = leaf ∷ fan ∷ []

leaf_found : find_sink (lit "a") declared ≡ some leaf
unfolding find_sink str_eq
leaf_found = refl

fan_found : find_sink (lit "c") declared ≡ some fan
unfolding find_sink str_eq
fan_found = refl

leaf-single : is_composite leaf ≡ false
unfolding str_eq
leaf-single = refl

fan-composite : is_composite fan ≡ true
unfolding str_eq
fan-composite = refl

abbrev failing : Env
failing = record env { publish = λ n c k. if str_eq n (lit "a") then some (other []) else none }

a-fails : (c : Change) (k : ℕ) → failing.publish (lit "a") c k ≢ none
unfolding str_eq
a-fails c k e = cc

c-takes : (c : Change) (k : ℕ) → failing.publish (lit "c") c k ≡ none
unfolding str_eq
c-takes c k = refl

dead_letter_endless_example :
    ((p : Publisher) × (follow declared three_times (pos 0) 9 (lit "c") ≡ some p)
      × ((ctx : Ctx) (c : Change) (w : World) → Reached (lit "c") (publish failing p ctx c w).1))
    × (link declared three_times (pos 0) 9 (lit "c") ≡ none)
dead_letter_endless_example =
    dead_letter_endless declared three_times (pos 0) dead_letter_loop (lit "a") leaf fan leaf_found
      leaf-single refl fan_found fan-composite (Memᴰ.head refl) failing a-fails c-takes 9

-- The same fan-out with a leaf as the dead letter.
abbrev safe : List SinkConfig
safe =
    record leaf { dead_letter = lit "x" }
    ∷ record leaf { name = lit "x"; dead_letter = [] }
    ∷ fan
    ∷ []

safe_checked : check_sinks safe ≡ none
unfolding check_sinks str_eq rss2msg.Model.Space.trim_space lookup rss2msg.Prelude.Map.insert
safe_checked = refl

safe_plain : PlainDeadLetters safe
unfolding find_sink str_eq
safe_plain = (refl, (refl, (refl, tt)))

safe-fan : find_sink (lit "c") safe ≡ some fan
unfolding find_sink str_eq
safe-fan = refl

link_checked_example :
    (fuel : ℕ) × (p : Publisher) × (link safe three_times (pos 0) fuel (lit "c") ≡ some p)
link_checked_example =
    link_checked safe three_times (pos 0) safe_checked safe_plain (lit "c") fan safe-fan
