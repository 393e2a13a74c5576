-- ===== src/Wire/Endless.antt =====
-- What a delivery does when a sink's dead letter is a composite that the sink is a child of: wire.go
-- links the publishers in a circle, which is cut here at some depth, to have a publisher to deliver to.
use mathlib.Core.Option.{some-injective}
use rss2msg.Prelude.{
  ℕ, zero, suc, ◌≡◌, ◌≢◌, refl, ◌∙◌, ap, Str, true, false, Option, none, some, List, [], ◌∷◌, Memᴰ,
  is_empty, Option-cases, inl, inr,
}
use rss2msg.Prelude.Int.{ℤ}
use rss2msg.Errors.{Err}
use rss2msg.Model.{Change}
use rss2msg.Retry.{Ctx, Config, run}
use rss2msg.Retry.Runs.{run-Succeeded}
use rss2msg.World.{Env, World, took, clock}
use rss2msg.SinkGraph.{SinkConfig, is_composite, check_sinks}
use rss2msg.Sink.{
  Publisher, leaf, composite, Branches, branch, RetryingPublisher, with_retry, dlq_to, hand_over,
  envelope, bounded, publish, publish_all, deliver, leaf_result,
}
use rss2msg.Sink.Keeps.{publish_all-Grows, dlq_result-world}
use rss2msg.Wire.{find_sink, wrap_sink, link_branches, link}
use rss2msg.Wire.Follow.{follow, follow-Total}
use rss2msg.Wire.Finite.{link_dead_letter_loop}

-- A sink with the name took a change.
abbrev pub Reached : Str → World → Type 0
Reached n w = (c : Change) × Memᴰ (took n c) w.trace

module _ (env : Env) (cut : Str) where
  abbrev Reaching : Publisher → Type 0
  Reaching p = (ctx : Ctx) (c : Change) (w : World) → Reached cut (publish env p ctx c w).1

  leaf_result-fails :
      (n : Str) (c : Change) (o : Option Err) (w v : World)
      → o ≢ none
      → leaf_result n c o w ≢ (none, v)
  leaf_result-fails n c none w v h e = h refl
  leaf_result-fails n c (some x) w v h e = cc

  cut-leaf : ((c : Change) (k : ℕ) → env.publish cut c k ≡ none) → Reaching (leaf cut)
  unfolding publish
  cut-leaf h ctx c w = rw (h c w.ticks) (c, Memᴰ.head refl)

  -- What a sink that always fails is given ends up with its dead letter.
  deliver-Reached :
      (a : Str) (d : Publisher) (cfg : Config) (timeout : ℤ)
      → ((c : Change) (k : ℕ) → env.publish a c k ≢ none)
      → Reaching d
      → (ctx : Ctx) (c : Change) (w : World)
      → Reached cut (deliver env (with_retry (leaf a) (dlq_to d) cfg timeout) ctx c w).1
  unfolding publish hand_over
  deliver-Reached a d cfg timeout fails reaching ctx c w =
      let ctx' = bounded timeout ctx w in
      let primary = publish env (leaf a) ctx' c in
      elim (Option-cases (run (clock env) ctx' cfg primary w).0.err) [
        | inl e ↦
            let s = run-Succeeded (clock env) ctx' primary cfg w e in
            absurd (leaf_result-fails a c _ s.before _ (fails c s.before.ticks) s.called)
        | inr (x, e) ↦ rw e (
            rw dlq_result-world
              (reaching ctx' (envelope a x _ c) (run (clock env) ctx' cfg primary w).1))
      ]

module _ (sinks : List SinkConfig) (retry : Config) (timeout : ℤ) where
  branch-Reaching :
      (cut : Str) (env : Env) (r : RetryingPublisher) (rest : Branches) (a b : Str) (cs : List Str)
      → Memᴰ a (b ∷ cs)
      → (a ≡ b → (ctx : Ctx) (c : Change) (w : World) → Reached cut (deliver env r ctx c w).1)
      → (Memᴰ a cs
          → (ctx : Ctx) (c : Change) (w : World) → Reached cut (publish_all env rest ctx c w).1)
      → (ctx : Ctx) (c : Change) (w : World)
      → Reached cut (publish_all env (branch b r rest) ctx c w).1
  unfolding publish
  branch-Reaching cut env r rest a b cs (Memᴰ.head e) here later ctx c w =
      let (c', there) = here e ctx c w in
      (c', publish_all-Grows env rest ctx c (deliver env r ctx c w).1 _ there)
  branch-Reaching cut env r rest a b cs (Memᴰ.tail m) here later ctx c w =
      later m ctx c (deliver env r ctx c w).1

  -- A fan-out reaches what one of its branches reaches.
  branches-Reaching :
      (cut : Str) (env : Env) (get : Str → Option Publisher) (a : Str)
      → ((r : RetryingPublisher)
          → wrap_sink sinks retry timeout get a ≡ some r
          → (ctx : Ctx) (c : Change) (w : World) → Reached cut (deliver env r ctx c w).1)
      → (cs : List Str) → Memᴰ a cs
      → (bs : Branches) → link_branches sinks retry timeout get cs ≡ some bs
      → (ctx : Ctx) (c : Change) (w : World) → Reached cut (publish_all env bs ctx c w).1
  unfolding link_branches
  branches-Reaching cut env get a h [] m bs e = elim m [ ]
  branches-Reaching cut env get a h (b ∷ cs) m bs e =
      elim (Option-cases (wrap_sink sinks retry timeout get b)) [
        | inl q ↦ absurd (cc (rw q at e))
        | inr (r, q) ↦ elim (Option-cases (link_branches sinks retry timeout get cs)) [
          | inl t ↦ absurd (cc (rw (q, t) at e))
          | inr (rest, t) ↦
              let same : branch b r rest ≡ bs = some-injective _ _ (rw (q, t) at e) in
              rw (← same) (
                branch-Reaching cut env r rest a b cs m
                  (λ k. h r (ap (wrap_sink sinks retry timeout get) k ∙ q))
                  (λ k. branches-Reaching cut env get a h cs k rest t))
        ]
      ]

module _ (sinks : List SinkConfig) (retry : Config) (timeout : ℤ)
    (checked : check_sinks sinks ≡ none) (a : Str) (s d : SinkConfig)
    (found : find_sink a sinks ≡ some s) (single : is_composite s ≡ false)
    (named : is_empty s.dead_letter ≡ false) (declared : find_sink s.dead_letter sinks ≡ some d)
    (fans : is_composite d ≡ true) (child : Memᴰ a d.children) (env : Env)
    (fails : (c : Change) (k : ℕ) → env.publish a c k ≢ none)
    (takes : (c : Change) (k : ℕ) → env.publish s.dead_letter c k ≡ none) where
  abbrev at : ℕ → Str → Option Publisher
  at = follow sinks retry timeout

  abbrev Deep : ℕ → Type 0
  Deep depth = (p : Publisher) → at depth s.dead_letter ≡ some p → Reaching env s.dead_letter p

  follow_leaf : (depth : ℕ) → at depth a ≡ some (leaf a)
  unfolding follow
  follow_leaf zero = refl
  follow_leaf (suc depth) = rw (found, single) refl

  wrap-Reaching :
      (depth : ℕ)
      → Deep depth
      → (r : RetryingPublisher) → wrap_sink sinks retry timeout (at depth) a ≡ some r
      → (ctx : Ctx) (c : Change) (w : World) → Reached s.dead_letter (deliver env r ctx c w).1
  unfolding wrap_sink
  wrap-Reaching depth deep r e =
      let (q, there) = follow-Total sinks retry timeout checked depth s.dead_letter d declared in
      let same : with_retry (leaf a) (dlq_to q) retry timeout ≡ r =
        some-injective _ _ (rw (found, follow_leaf depth, single, named, declared, there) at e) in
      rw (← same) (deliver-Reached env s.dead_letter a q retry timeout fails (deep q there))

  follow-Reaching : (depth : ℕ) → Deep depth
  unfolding follow publish
  follow-Reaching zero p e = rw (← some-injective _ _ e) (cut-leaf env s.dead_letter takes)
  follow-Reaching (suc depth) p e =
      elim (Option-cases (link_branches sinks retry timeout (at depth) d.children)) [
        | inl q ↦ absurd (cc (rw (declared, fans, q) at e))
        | inr (bs, q) ↦
            let same : composite s.dead_letter bs ≡ p =
              some-injective _ _ (rw (declared, fans, q) at e) in
            rw (← same) (
              branches-Reaching sinks retry timeout s.dead_letter env (at depth) a
                (wrap-Reaching depth (follow-Reaching depth)) d.children child bs q)
      ]

  -- Of sinks that pass the checks, let one have, as its dead letter, a composite that it is a child of,
  -- and let it fail every change. Then to whatever depth the links are followed, there is a publisher
  -- of the composite, and every publish by it goes on to that depth: it reaches the sink that stands in
  -- the composite's place there, which is taken to accept every change. No depth is enough to link
  -- the composite without such a cut.
  pub dead_letter_endless :
      (depth : ℕ)
      → ((p : Publisher) × (follow sinks retry timeout depth s.dead_letter ≡ some p)
          × ((ctx : Ctx) (c : Change) (w : World)
              → Reached s.dead_letter (publish env p ctx c w).1))
        × (link sinks retry timeout depth s.dead_letter ≡ none)
  dead_letter_endless depth =
      let (p, e) = follow-Total sinks retry timeout checked depth s.dead_letter d declared in
      (
        (p, e, follow-Reaching depth p e),
        (link_dead_letter_loop sinks retry timeout a s d found single named declared fans child
            depth).0,
      )
