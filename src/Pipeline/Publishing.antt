-- ===== src/Pipeline/Publishing.antt =====
-- The publishing loop of cmd/rss2msg/pipeline.go: what it delivers and what it records.
use rss2msg.Prelude.{
  ◌≡◌, ◌≢◌, refl, ◌∙◌, ap, ◌⊎◌, inl, inr, Str, Bool, true, ◌&&◌, some, List, [], ◌∷◌, Memᴰ, arith,
  str_eq_iff, Bool-cases,
}
use rss2msg.Model.{Change}
use rss2msg.Retry.{Ctx}
use rss2msg.State.{select_item}
use rss2msg.State.Items.{select-insert_item}
use rss2msg.World.{Env, World, Event}
use rss2msg.Sink.{BranchState, success, dlq, dropped, RetryingPublisher, deliver}
use rss2msg.Sink.Delivered.{Kept, Kept-mono}
use rss2msg.Sink.Keeps.{deliver-Grows, db-deliver}
use rss2msg.Sink.NoLoss.{deliver-Kept}
use rss2msg.Pipeline.{Pipeline, is_ok, deliver_all, record_item, publish_change, publish_changes}

-- Every branch of the pipeline has the change, or its dead-letter sink has it.
abbrev KeptByAll : List (Str × RetryingPublisher) → Change → List Event → Type 0
KeptByAll [] c t = Unit {0}
KeptByAll ((n, r) ∷ bs) c t = Kept r c t × KeptByAll bs c t

pub KeptByAll-mono :
    (bs : List (Str × RetryingPublisher)) (c : Change) (w w' : World)
    → ((ev : Event) → Memᴰ ev w.trace → Memᴰ ev w'.trace)
    → KeptByAll bs c w.trace
    → KeptByAll bs c w'.trace
KeptByAll-mono [] c w w' g h = tt
KeptByAll-mono ((n, r) ∷ bs) c w w' g h = (Kept-mono r c w w' g h.0, KeptByAll-mono bs c w w' g h.1)

is_ok-ne-dropped : (s : BranchState) → is_ok s ≡ true → s ≢ dropped
is_ok-ne-dropped success h = λ e. absurd (cc)
is_ok-ne-dropped dlq h = λ e. absurd (cc)
is_ok-ne-dropped dropped h = λ e. absurd (cc)

module _ (env : Env) (ctx : Ctx) where
  deliver_all-Grows :
      (bs : List (Str × RetryingPublisher)) (c : Change) (w : World) (ev : Event)
      → Memᴰ ev w.trace
      → Memᴰ ev (deliver_all env bs ctx c w).1.trace
  unfolding deliver_all
  deliver_all-Grows [] c w ev m = m
  deliver_all-Grows ((n, r) ∷ bs) c w ev m =
      deliver_all-Grows bs c (deliver env r ctx c w).1 ev (deliver-Grows env r ctx c w ev m)

  pub db-deliver_all :
      (bs : List (Str × RetryingPublisher)) (c : Change) (w : World)
      → (deliver_all env bs ctx c w).1.db ≡ w.db
  unfolding deliver_all
  db-deliver_all [] c w = refl
  db-deliver_all ((n, r) ∷ bs) c w =
      db-deliver_all bs c (deliver env r ctx c w).1 ∙ db-deliver env r ctx c w

  deliver_all-kept :
      (bs : List (Str × RetryingPublisher)) (c : Change) (w : World)
      → (deliver_all env bs ctx c w).0 ≡ true
      → KeptByAll bs c (deliver_all env bs ctx c w).1.trace
  unfolding deliver_all
  deliver_all-kept [] c w h = tt
  deliver_all-kept ((n, r) ∷ bs) c w h =
      let w' = (deliver env r ctx c w).1 in
      let (here, there) = both (is_ok (deliver env r ctx c w).0.state) _ h in
      (
        Kept-mono r c w' (deliver_all env bs ctx c w').1 (deliver_all-Grows bs c w')
            (deliver-Kept env r ctx c w (is_ok-ne-dropped _ here)),
        deliver_all-kept bs c w' there,
      )
    where
      both : (a b : Bool) → (a && b) ≡ true → (a ≡ true) × (b ≡ true)
      both a b e = ground arith

  record_item-trace :
      (feed_url : Str) (c : Change) (w : World) → (record_item env feed_url c w).trace ≡ w.trace
  unfolding record_item
  record_item-trace feed_url c w = refl

  -- Recording changes no other item, and this one to the version that the change carries, or not
  -- at all if the store fails.
  select-record_item :
      (feed_url f i : Str) (c : Change) (w : World)
      → (select_item f i (record_item env feed_url c w).db.seen_items
          ≡ select_item f i w.db.seen_items)
        ⊎ ((f ≡ feed_url)
            × (c.item_id ≡ i)
            × (select_item f i (record_item env feed_url c w).db.seen_items
                ≡ some (record { content_hash = c.content_hash; last_seen_at = c.detected_at })))
  unfolding record_item
  select-record_item feed_url f i c w = ground (
    arith,
    select-insert_item f i
        (record {
          feed_url = feed_url;
          item_id = c.item_id;
          content_hash = c.content_hash;
          last_seen_at = c.detected_at;
        })
        w.db.seen_items,
    str_eq_iff feed_url f,
    str_eq_iff c.item_id i,
  )

  publish_change-Grows :
      (p : Pipeline) (feed_url : Str) (c : Change) (w : World) (ev : Event)
      → Memᴰ ev w.trace
      → Memᴰ ev (publish_change env p ctx feed_url c w).trace
  unfolding publish_change
  publish_change-Grows p feed_url c w ev m = elim (Bool-cases (deliver_all env p.sinks ctx c w).0) [
    | inl e ↦ rw e (deliver_all-Grows p.sinks c w ev m)
    | inr e ↦ rw e (deliver_all-Grows p.sinks c w ev m)
  ]

  publish_changes-Grows :
      (p : Pipeline) (feed_url : Str) (cs : List Change) (w : World) (ev : Event)
      → Memᴰ ev w.trace
      → Memᴰ ev (publish_changes env p ctx feed_url cs w).trace
  unfolding publish_changes
  publish_changes-Grows p feed_url [] w ev m = m
  publish_changes-Grows p feed_url (c ∷ cs) w ev m =
      publish_changes-Grows p feed_url cs (publish_change env p ctx feed_url c w) ev
        (publish_change-Grows p feed_url c w ev m)

-- What a poll may do to the state of item `i` of feed `f`: nothing, or record the version that a
-- change carries, once every branch has that change.
abbrev pub Recorded : Pipeline → Str → Str → Str → World → World → Type 0
Recorded p feed_url f i w w' =
    (select_item f i w'.db.seen_items ≡ select_item f i w.db.seen_items)
    ⊎ ((c : Change) × (f ≡ feed_url)
        × (c.item_id ≡ i)
        × (select_item f i w'.db.seen_items
            ≡ some (record { content_hash = c.content_hash; last_seen_at = c.detected_at }))
        × KeptByAll p.sinks c w'.trace)

module _ (env : Env) (ctx : Ctx) (p : Pipeline) (feed_url f i : Str) where
  publish_change-Recorded :
      (c : Change) (w : World) → Recorded p feed_url f i w (publish_change env p ctx feed_url c w)
  publish_change-Recorded c w = elim (Bool-cases (deliver_all env p.sinks ctx c w).0) [
    | inr e ↦ inl (unfold publish_change in rw (e, db-deliver_all env ctx p.sinks c w))
    | inl e ↦
        delivered e (select-record_item env ctx feed_url f i c (deliver_all env p.sinks ctx c w).1)
  ]
    where
      w' : World
      w' = (deliver_all env p.sinks ctx c w).1

      recorded :
          (deliver_all env p.sinks ctx c w).0 ≡ true
          → publish_change env p ctx feed_url c w ≡ record_item env feed_url c w'
      recorded e = unfold publish_change in rw e

      delivered :
          (deliver_all env p.sinks ctx c w).0 ≡ true
          → (select_item f i (record_item env feed_url c w').db.seen_items
              ≡ select_item f i w'.db.seen_items)
            ⊎ ((f ≡ feed_url)
                × (c.item_id ≡ i)
                × (select_item f i (record_item env feed_url c w').db.seen_items
                    ≡ some
                        (record { content_hash = c.content_hash; last_seen_at = c.detected_at })))
          → Recorded p feed_url f i w (publish_change env p ctx feed_url c w)
      delivered e (inl s) =
          rw (recorded e)
            (inl (s ∙ ap (λ d. select_item f i d.seen_items) (db-deliver_all env ctx p.sinks c w)))
      delivered e (inr (a, b, s)) =
          rw (recorded e)
            (inr (c, a, b, s, rw record_item-trace (deliver_all-kept env ctx p.sinks c w e)))

  -- The last change that was recorded for the item decides.
  Recorded-trans :
      (w w' w'' : World)
      → ((ev : Event) → Memᴰ ev w'.trace → Memᴰ ev w''.trace)
      → Recorded p feed_url f i w w'
      → Recorded p feed_url f i w' w''
      → Recorded p feed_url f i w w''
  Recorded-trans w w' w'' g h (inr k) = inr k
  Recorded-trans w w' w'' g (inl h) (inl k) = inl (k ∙ h)
  Recorded-trans w w' w'' g (inr (c, a, b, s, kept)) (inl k) =
      inr (c, a, b, k ∙ s, KeptByAll-mono p.sinks c w' w'' g kept)

  pub publish_changes-Recorded :
      (cs : List Change) (w : World)
      → Recorded p feed_url f i w (publish_changes env p ctx feed_url cs w)
  unfolding publish_changes
  publish_changes-Recorded [] w = inl refl
  publish_changes-Recorded (c ∷ cs) w =
      let w' = publish_change env p ctx feed_url c w in
      Recorded-trans w w' (publish_changes env p ctx feed_url cs w')
        (publish_changes-Grows env ctx p feed_url cs w') (publish_change-Recorded c w)
        (publish_changes-Recorded cs w')
