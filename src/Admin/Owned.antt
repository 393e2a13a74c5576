-- ===== src/Admin/Owned.antt =====
-- That the admin API shows the owners that the scheduler goes by (internal/admin/handlers.go,
-- internal/scheduler/ownerprovider.go).
use rss2msg.Prelude.{
  ℕ, ◌≡◌, ◌∙◌, refl, ap, Str, true, Option, some, List, [], ◌∷◌, Bool-cases, inl, inr,
  if◌then◌else◌,
}
use rss2msg.Errors.{ok}
use rss2msg.Model.{Time}
use rss2msg.State.{FeedMeta}
use rss2msg.Source.{FeedConfig}
use rss2msg.Assign.{owner, is_owner, in_set, owned, owned_loop}
use rss2msg.Ownership.{urls}
use rss2msg.Admin.Views.{FeedView, shown, views, handle_feeds}

-- The feeds of the views that are marked as owned.
abbrev pub marked : List FeedView → List Str
marked [] = []
marked (v ∷ vs) = let rest = marked vs in if v.owned then v.url ∷ rest else rest

module _ (sum64 : Str → ℕ) (rfc3339 : Time → Str) (meta_of : Str → Option FeedMeta) where
  marked-views :
      (self m : Str) (ms : List Str) (fcs : List FeedConfig)
      → marked (views sum64 rfc3339 meta_of self (m ∷ ms) fcs)
        ≡ owned_loop sum64 self (urls fcs) (m ∷ ms)
  unfolding views owned_loop urls
  marked-views self m ms [] = refl
  marked-views self m ms (fc ∷ fcs) =
      elim (Bool-cases (is_owner self (owner sum64 fc.url (m ∷ ms)))) [
        | inl e ↦ rw e (ap (λ t. fc.url ∷ t) (marked-views self m ms fcs))
        | inr e ↦ rw e (marked-views self m ms fcs)
      ]

  -- In a fleet, the feeds that the admin API marks as owned by an instance, which is one of the
  -- members, are the feeds that the assignment gives it, in the same order.
  pub views-owned :
      (name self m : Str) (ms : List Str) (fcs : List FeedConfig)
      → in_set self (m ∷ ms) ≡ true
      → (vs : List FeedView) × (handle_feeds sum64 rfc3339 meta_of name
            (some (self, m ∷ ms))
            (ok fcs)
          ≡ shown vs)
        × (marked vs ≡ owned sum64 self (urls fcs) (m ∷ ms))
  unfolding handle_feeds owned
  views-owned name self m ms fcs known = (
    views sum64 rfc3339 meta_of self (m ∷ ms) fcs,
    refl,
    marked-views self m ms fcs ∙ rw known refl,
  )
