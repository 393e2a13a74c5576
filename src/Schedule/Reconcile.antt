-- ===== src/Schedule/Reconcile.antt =====
-- What a reconcile of internal/scheduler/dynamic.go leaves running.

use rss2msg.Prelude.{
  ℕ, ◌≡◌, refl, ◌∙◌, sym, ap, Str, Bool, true, false, not, Option, none, some, List, [], ◌∷◌, arith,
  str_eq, str_eq_iff, if◌then◌else◌, Bool-cases, Option-cases, inl, inr,
}
use rss2msg.Prelude.Map.{
  lookup, insert, filter_keys, filter_entries, lookup-insert, lookup-filter_keys, DistinctKeys,
  insert-DistinctKeys, keep_if, lookup-filter_entries, filter_entries-DistinctKeys,
}
use rss2msg.Errors.{Err, Result, ok, err, Result-cases}
use rss2msg.Source.{FeedConfig}
use rss2msg.Schedule.{
  feed_config_discrete, deep_equal, Running, Feeds, by_url, runs_as, must_start, prebuild,
  start_feed, start_all, aborted, applied, is_desired, apply, reconcile,
}

by_url-DistinctKeys :
    (fcs : List FeedConfig) (m : List (Str × FeedConfig))
    → DistinctKeys m
    → DistinctKeys (by_url fcs m)
unfolding by_url
by_url-DistinctKeys [] m h = h
by_url-DistinctKeys (fc ∷ fcs) m h =
    by_url-DistinctKeys fcs (insert fc.url fc m) (insert-DistinctKeys fc.url fc m h)

-- What the first loop returns, where it does not abort.
prebuild-ok :
    (factory : FeedConfig → Option Err) (running : List (Str × Running))
    (m ts : List (Str × FeedConfig))
    → prebuild factory running m ≡ ok ts
    → ts ≡ filter_entries (must_start running) m
unfolding prebuild filter_entries
prebuild-ok factory running [] ts h = ground arith
prebuild-ok factory running ((url, fc) ∷ m) ts h =
    elim (Result-cases (prebuild factory running m)) [
      | inl (e, q) ↦ absurd (ground arith)
      | inr (us, q) ↦ ground (arith, prebuild-ok factory running m us q)
    ]

start_all_absent :
    (k : Str) (ts : List (Str × FeedConfig)) (a c : ℕ) (s : Feeds)
    → lookup k ts ≡ none
    → lookup k (start_all ts a c s).1.running ≡ lookup k s.running
unfolding start_all lookup
start_all_absent k [] a c s h = refl
start_all_absent k ((url, fc) ∷ ts) a c s h = elim (Bool-cases (str_eq url k)) [
  | inl e ↦ absurd (ground arith)
  | inr e ↦
      start_all_absent k ts _ _ (start_feed url fc s) (ground arith)
      ∙ lookup-insert url k _ s.running
      ∙ rw e
]

start_all_present :
    (k : Str) (ts : List (Str × FeedConfig)) (a c : ℕ) (s : Feeds) (fc : FeedConfig)
    → DistinctKeys ts
    → lookup k ts ≡ some fc
    → (rf : Running) × (lookup k (start_all ts a c s).1.running ≡ some rf) × (rf.cfg ≡ fc)
unfolding start_all
start_all_present k [] a c s fc d h = absurd (unfold lookup in ground arith)
start_all_present k ((url, gc) ∷ ts) a c s fc d h = elim (Bool-cases (str_eq url k)) [
  | inl e ↦ (
    record { cfg = gc; serial = s.started; poked = false },
    start_all_absent k ts _ _ (start_feed url gc s)
          (ap (λ x. lookup x ts) (sym ((str_eq_iff url k).0 e)) ∙ d.0)
        ∙ lookup-insert url k _ s.running
        ∙ rw e,
    unfold lookup in ground arith,
  )
  | inr e ↦ start_all_present k ts _ _ (start_feed url gc s) fc d.1 (unfold lookup in ground arith)
]

abbrev pub config_of : Option Running → Option FeedConfig
config_of none = none
config_of (some rf) = some rf.cfg

deep_equal-eq : (a b : FeedConfig) → deep_equal a b ≡ true → a ≡ b
deep_equal-eq a b h = split (feed_config_discrete a b) h
  where
    split : (d : Dec (a ≡ b)) → (elim d [ yes e ↦ true | no e ↦ false ]) ≡ true → a ≡ b
    split (yes e) q = e
    split (no n) q = absurd (cc)

deep_equal_refl : (a : FeedConfig) → deep_equal a a ≡ true
deep_equal_refl a = split (feed_config_discrete a a)
  where
    split : (d : Dec (a ≡ a)) → (elim d [ yes e ↦ true | no e ↦ false ]) ≡ true
    split (yes e) = refl
    split (no n) = absurd (n refl)

runs_as-eq :
    (fc : FeedConfig) (o : Option Running)
    → runs_as fc o ≡ true
    → (rf : Running) × (o ≡ some rf) × (rf.cfg ≡ fc)
runs_as-eq fc none h = absurd (cc)
runs_as-eq fc (some rf) h = (rf, refl, deep_equal-eq rf.cfg fc h)

not-false : (b : Bool) → not b ≡ false → b ≡ true
not-false true h = refl
not-false false h = absurd (cc)

module _ (m : List (Str × FeedConfig)) (distinct : DistinctKeys m) (s : Feeds) (k : Str) where
  abbrev todo : List (Str × FeedConfig)
  todo = filter_entries (must_start s.running) m

  abbrev kept : Feeds
  kept = record s { running = filter_keys (is_desired m) s.running }

  abbrev final : Feeds
  final = (start_all todo 0 0 kept).1

  lookup-todo : lookup k todo ≡ keep_if (must_start s.running k) (lookup k m)
  lookup-todo = lookup-filter_entries (must_start s.running) k m distinct

  todo-distinct : DistinctKeys todo
  todo-distinct = filter_entries-DistinctKeys (must_start s.running) m distinct

  lookup-kept : lookup k kept.running ≡ (if is_desired m k then lookup k s.running else none)
  lookup-kept = lookup-filter_keys (is_desired m) k s.running

  -- A feed that need not start goes on as it is.
  final-unchanged :
      (fc : FeedConfig)
      → lookup k m ≡ some fc
      → must_start s.running k fc ≡ false
      → lookup k final.running ≡ lookup k s.running
  final-unchanged fc h e =
      start_all_absent k todo 0 0 kept (lookup-todo ∙ rw h (rw e)) ∙ lookup-kept ∙ rw h

  final-removed : lookup k m ≡ none → lookup k final.running ≡ none
  final-removed h = start_all_absent k todo 0 0 kept (lookup-todo ∙ rw h) ∙ lookup-kept ∙ rw h

  final-config : config_of (lookup k final.running) ≡ lookup k m
  final-config = elim (Option-cases (lookup k m)) [
    | inl h ↦ ap config_of (final-removed h) ∙ sym h
    | inr (fc, h) ↦ elim (Bool-cases (must_start s.running k fc)) [
      | inl e ↦
          let (rf, q, c) =
            start_all_present k todo 0 0 kept fc todo-distinct (lookup-todo ∙ rw h (rw e)) in
          ap config_of q ∙ ap some c ∙ sym h
      | inr e ↦
          let (rf, q, c) = runs_as-eq fc (lookup k s.running) (not-false _ e) in
          ap config_of (final-unchanged fc h e ∙ q) ∙ ap some c ∙ sym h
    ]
  ]

-- The feed list as the map that a reconcile works from.
abbrev pub wanted : List FeedConfig → List (Str × FeedConfig)
wanted fcs = by_url fcs []

apply-final :
    (m : List (Str × FeedConfig)) (r : Result (List (Str × FeedConfig))) (s s' : Feeds) (a d c : ℕ)
    → apply m r s ≡ (applied a d c, s')
    → (ts : List (Str × FeedConfig)) × (r ≡ ok ts)
      × ((start_all ts 0 0 (record s { running = filter_keys (is_desired m) s.running })).1 ≡ s')
apply-final m (err e) s s' a d c h = absurd (cc (ap (λ x. x.0) h))
apply-final m (ok ts) s s' a d c h = (ts, refl, ap (λ x. x.1) h)

module _ (factory : FeedConfig → Option Err) (fcs : List FeedConfig) (s s' : Feeds) (a d c : ℕ)
    (done : reconcile factory (ok fcs) s ≡ (applied a d c, s')) (url : Str) where
  reconcile-final : final (wanted fcs) (by_url-DistinctKeys fcs [] tt) s url ≡ s'
  unfolding reconcile
  reconcile-final =
      let m = wanted fcs in
      let (ts, r, q) = apply-final m (prebuild factory s.running m) s s' a d c done in
      ap (λ us. (start_all us 0 0 (record s { running = filter_keys (is_desired m) s.running })).1)
        (sym (prebuild-ok factory s.running m ts r))
      ∙ q

  -- After a reconcile that was applied the running feeds are the desired ones, each with its desired
  -- configuration, and no others.
  pub reconcile_exact : config_of (lookup url s'.running) ≡ lookup url (wanted fcs)
  reconcile_exact =
      rw (← reconcile-final) (final-config (wanted fcs) (by_url-DistinctKeys fcs [] tt) s url)

  -- A feed that runs with the configuration that is desired is not touched: its loop is not started
  -- anew, and its ticker not reset.
  pub reconcile_undisturbed :
      (rf : Running)
      → lookup url s.running ≡ some rf
      → lookup url (wanted fcs) ≡ some rf.cfg
      → lookup url s'.running ≡ some rf
  reconcile_undisturbed rf h w = rw (← reconcile-final) (
      final-unchanged (wanted fcs) (by_url-DistinctKeys fcs [] tt) s url rf.cfg w
        (rw h (ap not (deep_equal_refl rf.cfg)))
      ∙ h)

-- A reconcile that is aborted, by the provider, by a bad interval or by the factory, leaves the
-- running set as it was.
pub reconcile_atomic :
    (factory : FeedConfig → Option Err) (r : Result (List FeedConfig)) (s : Feeds) (e : Err)
    → (reconcile factory r s).0 ≡ aborted e
    → (reconcile factory r s).1 ≡ s
unfolding reconcile
reconcile_atomic factory (err x) s e h = refl
reconcile_atomic factory (ok fcs) s e h = keep (prebuild factory s.running (wanted fcs)) h
  where
    keep :
        (r : Result (List (Str × FeedConfig)))
        → (apply (wanted fcs) r s).0 ≡ aborted e
        → (apply (wanted fcs) r s).1 ≡ s
    keep (err x) q = refl
    keep (ok ts) q = absurd (cc)
