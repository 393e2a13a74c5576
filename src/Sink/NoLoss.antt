-- ===== src/Sink/NoLoss.antt =====
-- A publish that reports no error has left the change with every sink below it, or with the
-- dead-letter sink beside it: internal/sink/composite and internal/sink/retrywrap.go together.
use mathlib.Core.Option.{some-injective}
use rss2msg.Prelude.{
  ◌∙◌, ap, ℕ, ◌≡◌, ◌≢◌, refl, ◌⊎◌, inl, inr, Str, Option, none, some, List, [], ◌∷◌, Memᴰ,
}
use rss2msg.Prelude.Int.{ℤ}
use rss2msg.Errors.{Err}
use rss2msg.Model.{Change}
use rss2msg.Retry.{Ctx, Config}
use rss2msg.World.{Env, World, took}
use rss2msg.Sink.{
  BranchState, success, dlq, dropped, Publish, envelope, bounded, deliver_with, Publisher, leaf,
  composite, Branches, no_branch, branch, RetryingPublisher, with_retry, DeadLetter, no_dlq, dlq_to,
  name, publish, publish_all, deliver, dead_letter, leaf_result, composite_result, note,
}
use rss2msg.Sink.Deliver.{deliver-success, deliver-dlq}
use rss2msg.Sink.Delivered.{Delivered, DeliveredAll, Kept, Kept-mono, InDeadLetter}
use rss2msg.Sink.Keeps.{publish_all-Grows}

leaf_result-took :
    (n : Str) (c : Change) (r : Option Err) (w : World)
    → (leaf_result n c r w).0 ≡ none
    → Memᴰ (took n c) (leaf_result n c r w).1.trace
leaf_result-took n c none w h = Memᴰ.head refl
leaf_result-took n c (some e) w h = absurd (cc)

composite_result-none : (n : Str) (ds : List Str) → composite_result n ds ≡ none → ds ≡ []
composite_result-none n [] h = refl
composite_result-none n (d ∷ ds) h = absurd (cc)

note-nil :
    (child : Str) (s : BranchState) (ds : List Str)
    → note child s ds ≡ []
    → (s ≢ dropped) × (ds ≡ [])
note-nil child success ds h = ((λ e. absurd (cc)), h)
note-nil child dlq ds h = ((λ e. absurd (cc)), h)
note-nil child dropped ds h = absurd (cc)

State-cases : (s : BranchState) → s ≢ dropped → (s ≡ success) ⊎ (s ≡ dlq)
State-cases success h = inl refl
State-cases dlq h = inr refl
State-cases dropped h = absurd (h refl)

-- Delivery in terms of what a call without error of the primary and of the dead-letter sink mean.
deliver_with-kept :
    (env : Env) (sink : Str) (primary : Publish) (dead : Option Publish) (cfg : Config)
    (timeout : ℤ) (ctx : Ctx) (c : Change) (w : World) (P : World → Type 0) (Q : World → Type 0)
    → ((x : Ctx) (v v' : World) → primary x c v ≡ (none, v') → P v')
    → ((f : Publish) (x : Ctx) (e : Err) (n : ℕ) (v v' : World)
        → dead ≡ some f
        → f x (envelope sink e n c) v ≡ (none, v')
        → Q v')
    → (deliver_with env sink primary dead cfg timeout ctx c w).0.state ≢ dropped
    → P (deliver_with env sink primary dead cfg timeout ctx c w).1
      ⊎ Q (deliver_with env sink primary dead cfg timeout ctx c w).1
deliver_with-kept env sink primary dead cfg timeout ctx c w P Q p q h =
    elim (State-cases (deliver_with env sink primary dead cfg timeout ctx c w).0.state h) [
      | inl s ↦
          let t = deliver-success env sink primary dead cfg timeout ctx c w s in
          inl (p (bounded timeout ctx w) t.before _ t.called)
      | inr s ↦
          let t = deliver-dlq env sink primary dead cfg timeout ctx c w s in
          inr (q t.send (bounded timeout ctx w) t.e _ _ _ t.present t.sent)
    ]

mutual
  unfolding publish

  publish-none :
      (env : Env) (p : Publisher) (ctx : Ctx) (c : Change) (w : World)
      → (publish env p ctx c w).0 ≡ none
      → Delivered p c (publish env p ctx c w).1.trace
  publish-none env (leaf n) ctx c w h = leaf_result-took n c (env.publish n c w.ticks) w h
  publish-none env (composite n bs) ctx c w h =
      publish_all-nil env bs ctx c w (composite_result-none n (publish_all env bs ctx c w).0 h)

  publish_all-nil :
      (env : Env) (bs : Branches) (ctx : Ctx) (c : Change) (w : World)
      → (publish_all env bs ctx c w).0 ≡ []
      → DeliveredAll bs c (publish_all env bs ctx c w).1.trace
  publish_all-nil env no_branch ctx c w h = tt
  publish_all-nil env (branch child r bs) ctx c w h =
      let w' = (deliver env r ctx c w).1 in
      let (kept, none_left) =
        note-nil child (deliver env r ctx c w).0.state (publish_all env bs ctx c w').0 h in
      (
        Kept-mono r c w' (publish_all env bs ctx c w').1 (publish_all-Grows env bs ctx c w')
            (deliver-Kept env r ctx c w kept),
        publish_all-nil env bs ctx c w' none_left,
      )

  pub deliver-Kept :
      (env : Env) (r : RetryingPublisher) (ctx : Ctx) (c : Change) (w : World)
      → (deliver env r ctx c w).0.state ≢ dropped
      → Kept r c (deliver env r ctx c w).1.trace
  deliver-Kept env (with_retry p d cfg timeout) ctx c w h =
      deliver_with-kept env (name p) (publish env p) (dead_letter env d) cfg timeout ctx c w
        (λ v. Delivered p c v.trace) (λ v. InDeadLetter d (name p) c v.trace)
        (λ x v v' e. rw e at (publish-none env p x c v (ap (λ t. t.0) e)))
        (λ f x e n v v' s t. dead_letter-none env d f (name p) x c e n v v' s t) h

  dead_letter-none :
      (env : Env) (d : DeadLetter) (f : Publish) (sink : Str) (x : Ctx) (c : Change) (e : Err)
      (n : ℕ) (v v' : World)
      → dead_letter env d ≡ some f
      → f x (envelope sink e n c) v ≡ (none, v')
      → InDeadLetter d sink c v'.trace
  dead_letter-none env no_dlq f sink x c e n v v' s t = absurd (cc)
  dead_letter-none env (dlq_to p) f sink x c e n v v' s t =
      let c' = envelope sink e n c in
      let called : publish env p x c' v ≡ (none, v') =
        ap (λ g. g x c' v) (some-injective _ _ s) ∙ t in
      (e, n, rw called at (publish-none env p x c' v (ap (λ r. r.0) called)))

-- A publish that returns nil has left the change with every sink that the publisher stands for,
-- through any nesting of composites: a driver's sink took it, and each child of a composite took it
-- or its dead-letter sink took the envelope of it.
pub publish-Delivered :
    (env : Env) (p : Publisher) (ctx : Ctx) (c : Change) (w : World)
    → (publish env p ctx c w).0 ≡ none
    → Delivered p c (publish env p ctx c w).1.trace
publish-Delivered = publish-none
