-- ===== src/Sink/Delivered.antt =====
-- Where a change ends up after a publish: the vocabulary for internal/sink and composite.
use rss2msg.Prelude.{ℕ, ◌⊎◌, inl, inr, Str, List, Memᴰ}
use rss2msg.Errors.{Err}
use rss2msg.Model.{Change}
use rss2msg.World.{World, Event, took}
use rss2msg.Sink.{
  envelope, Publisher, leaf, composite, Branches, no_branch, branch, RetryingPublisher, with_retry,
  DeadLetter, no_dlq, dlq_to, name,
}

-- Where a change ends up, by the shape of the publisher.
abbrev mutual
  pub Delivered : Publisher → Change → List Event → Type 0
  Delivered (leaf n) c t = Memᴰ (took n c) t
  Delivered (composite n bs) c t = DeliveredAll bs c t

  pub DeliveredAll : Branches → Change → List Event → Type 0
  DeliveredAll no_branch c t = Unit {0}
  DeliveredAll (branch child r bs) c t = Kept r c t × DeliveredAll bs c t

  pub Kept : RetryingPublisher → Change → List Event → Type 0
  Kept (with_retry p d cfg timeout) c t = Delivered p c t ⊎ InDeadLetter d (name p) c t

  pub InDeadLetter : DeadLetter → Str → Change → List Event → Type 0
  InDeadLetter no_dlq sink c t = ⊥
  InDeadLetter (dlq_to p) sink c t = (e : Err) × (n : ℕ) × Delivered p (envelope sink e n c) t

-- `w'` has every event of `w`.
abbrev Grows : World → World → Type 0
Grows w w' = (ev : Event) → Memᴰ ev w.trace → Memᴰ ev w'.trace

mutual
  Delivered-mono :
      (p : Publisher) (c : Change) (w w' : World)
      → Grows w w'
      → Delivered p c w.trace
      → Delivered p c w'.trace
  Delivered-mono (leaf n) c w w' g h = g (took n c) h
  Delivered-mono (composite n bs) c w w' g h = DeliveredAll-mono bs c w w' g h

  DeliveredAll-mono :
      (bs : Branches) (c : Change) (w w' : World)
      → Grows w w'
      → DeliveredAll bs c w.trace
      → DeliveredAll bs c w'.trace
  DeliveredAll-mono no_branch c w w' g h = tt
  DeliveredAll-mono (branch child r bs) c w w' g h =
      (Kept-mono r c w w' g h.0, DeliveredAll-mono bs c w w' g h.1)

  pub Kept-mono :
      (r : RetryingPublisher) (c : Change) (w w' : World)
      → Grows w w'
      → Kept r c w.trace
      → Kept r c w'.trace
  Kept-mono (with_retry p d cfg timeout) c w w' g (inl h) = inl (Delivered-mono p c w w' g h)
  Kept-mono (with_retry p d cfg timeout) c w w' g (inr h) =
      inr (InDeadLetter-mono d (name p) c w w' g h)

  InDeadLetter-mono :
      (d : DeadLetter) (sink : Str) (c : Change) (w w' : World)
      → Grows w w'
      → InDeadLetter d sink c w.trace
      → InDeadLetter d sink c w'.trace
  InDeadLetter-mono no_dlq sink c w w' g h = h
  InDeadLetter-mono (dlq_to p) sink c w w' g (e, n, h) =
      (e, n, Delivered-mono p (envelope sink e n c) w w' g h)
