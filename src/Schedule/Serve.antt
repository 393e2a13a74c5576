-- ===== src/Schedule/Serve.antt =====
-- What runs after any sequence of events of `ServeDynamic` (internal/scheduler/dynamic.go).
use rss2msg.Prelude.{
  ◌≡◌, refl, ◌∙◌, sym, ap, Str, Bool, true, false, Option, some, List, [], ◌∷◌, str_eq, str_eq_iff,
  if◌then◌else◌, Bool-cases, Option-cases, inl, inr,
}
use rss2msg.Prelude.Map.{lookup, lookup-insert}
use rss2msg.Errors.{Err, Result, ok, err}
use rss2msg.Source.{FeedConfig}
use rss2msg.Schedule.{
  by_url, Running, Feeds, Report, aborted, applied, reconcile, Event, changes, poll_now, took_poke,
  set_poked, serve_step, serve,
}
use rss2msg.Schedule.Reconcile.{config_of, wanted, reconcile_exact, reconcile_atomic}

-- The feed list that is in force: that of the last change whose reconcile was applied.
abbrev in_force_after : Report → Result (List FeedConfig) → List FeedConfig → List FeedConfig
in_force_after (aborted e) r fcs = fcs
in_force_after (applied a d c) (err e) fcs = fcs
in_force_after (applied a d c) (ok gs) fcs = gs

unfoldable pub in_force : List Event → Feeds → List FeedConfig → List FeedConfig
in_force [] s fcs = fcs
in_force (changes factory r ∷ es) s fcs =
    in_force es (reconcile factory r s).1 (in_force_after (reconcile factory r s).0 r fcs)
in_force (poll_now url ∷ es) s fcs = in_force es (serve_step (poll_now url) s) fcs
in_force (took_poke url ∷ es) s fcs = in_force es (serve_step (took_poke url) s) fcs

abbrev Tracks : Feeds → List FeedConfig → Type 0
Tracks s fcs = (url : Str) → config_of (lookup url s.running) ≡ lookup url (wanted fcs)

reconcile-Tracks :
    (factory : FeedConfig → Option Err) (r : Result (List FeedConfig)) (s : Feeds)
    (fcs : List FeedConfig)
    → Tracks s fcs
    → Tracks (reconcile factory r s).1 (in_force_after (reconcile factory r s).0 r fcs)
unfolding reconcile
reconcile-Tracks factory (err e) s fcs h = h
reconcile-Tracks factory (ok gs) s fcs h = track (reconcile factory (ok gs) s) refl
  where
    track :
        (o : Report × Feeds)
        → reconcile factory (ok gs) s ≡ o
        → Tracks o.1 (in_force_after o.0 (ok gs) fcs)
    track (aborted e, s') q = λ url.
        let same : s ≡ s' =
          sym (reconcile_atomic factory (ok gs) s e (ap (λ o. o.0) q)) ∙ ap (λ o. o.1) q in
        rw (← same) (h url)
    track (applied a d c, s') q = reconcile_exact factory gs s s' a d c q

set_poked-config :
    (b : Bool) (url k : Str) (running : List (Str × Running))
    → config_of (lookup k (set_poked b url (lookup url running) running))
      ≡ config_of (lookup k running)
set_poked-config b url k running = elim (Option-cases (lookup url running)) [
  | inl e ↦ rw e
  | inr (rf, e) ↦
      rw e (ap config_of (lookup-insert url k (record rf { poked = b }) running) ∙ same rf e)
]
  where
    same :
        (rf : Running)
        → lookup url running ≡ some rf
        → config_of (if str_eq url k then some (record rf { poked = b }) else lookup k running)
          ≡ config_of (lookup k running)
    same rf e = elim (Bool-cases (str_eq url k)) [
      | inr q ↦ rw q
      | inl q ↦ rw q (sym (ap config_of (rw ((str_eq_iff url k).0 q) at e)))
    ]

serve-Tracks :
    (es : List Event) (s : Feeds) (fcs : List FeedConfig)
    → Tracks s fcs
    → Tracks (serve es s) (in_force es s fcs)
unfolding serve in_force
serve-Tracks [] s fcs h = h
serve-Tracks (changes factory r ∷ es) s fcs h =
    unfold serve_step in
    serve-Tracks es (reconcile factory r s).1 (in_force_after (reconcile factory r s).0 r fcs)
      (reconcile-Tracks factory r s fcs h)
serve-Tracks (poll_now url ∷ es) s fcs h =
    serve-Tracks es (serve_step (poll_now url) s) fcs
      (λ k. unfold serve_step in set_poked-config true url k s.running ∙ h k)
serve-Tracks (took_poke url ∷ es) s fcs h =
    serve-Tracks es (serve_step (took_poke url) s) fcs
      (λ k. unfold serve_step in set_poked-config false url k s.running ∙ h k)

-- However changes of the feed list, polls on demand and failed reconciles follow each other, the
-- running feeds are those of the last list that was applied, each with the configuration it has
-- there. At the start nothing runs.
pub serve_tracks :
    (es : List Event) (s : Feeds) (url : Str)
    → s.running ≡ []
    → config_of (lookup url (serve es s).running) ≡ lookup url (wanted (in_force es s []))
unfolding by_url
serve_tracks es s url empty = serve-Tracks es s [] (λ k. rw empty (unfold lookup in refl)) url
