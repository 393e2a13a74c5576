-- ===== src/Admin/Views.antt =====
-- What internal/admin/handlers.go shows of the feeds and of the instances that own them. The digest of
-- the assignment, the format of a time and the unescaping of a path are parameters.
use rss2msg.Prelude.{
  ℕ, Str, lit, Bool, true, Option, none, some, List, [], ◌∷◌, ◌++◌, is_empty, str_eq, ◌==◌,
  if◌then◌else◌,
}
use rss2msg.Prelude.Int.{ℤ}
use rss2msg.Prelude.Map.{insert}
use rss2msg.Errors.{Err, Result, ok, err, error_text}
use rss2msg.Model.{Time}
use rss2msg.State.{FeedMeta}
use rss2msg.Source.{FeedConfig}
use rss2msg.Assign.{owner, is_owner}

-- `feedView`; the interval is shown in seconds by the encoder.
pub record FeedView : Type 0 where
  pub url : Str
  pub interval : ℤ
  pub owned : Bool
  pub etag : Option Str
  pub last_modified : Option Str

-- What a handler replies: a view, or the status and text of an error.
pub data Shown (A : Type 0) : Type 0 where
  shown : A → Shown A
  refused : ℕ → Str → Shown A

-- `selfAndMembers`: this instance's name without a membership, or both answers of the membership.
abbrev self_and_members : Str → Option (Str × List Str) → Str × List Str
self_and_members self none = (self, [])
self_and_members self (some known) = known

abbrev given : Str → Option Str
given s = if is_empty s then none else some s

-- What the state store answers for a feed: nothing for no store, an error or no row.
abbrev MetaOf : Type 0
MetaOf = Str → Option FeedMeta

abbrev list_failed : Err → Str
list_failed e = lit "list feeds: " ++ error_text e

module _ (sum64 : Str → ℕ) where
  -- `ownedBy`
  abbrev pub owned_by : Str → List Str → Str → Bool
  owned_by self [] feed_url = true
  owned_by self (m ∷ ms) feed_url = is_owner self (owner sum64 feed_url (m ∷ ms))

  module _ (rfc3339 : Time → Str) (meta_of : MetaOf) where
    abbrev etag_of : Option FeedMeta → Option Str
    etag_of none = none
    etag_of (some m) = given m.etag

    abbrev modified_of : Option FeedMeta → Option Str
    modified_of none = none
    modified_of (some m) = if m.last_modified == 0 then none else some (rfc3339 m.last_modified)

    abbrev pub view : Str → List Str → FeedConfig → FeedView
    view self members fc = record {
      url = fc.url;
      interval = fc.interval;
      owned = owned_by self members fc.url;
      etag = etag_of (meta_of fc.url);
      last_modified = modified_of (meta_of fc.url);
    }

    -- The loop of `feedViews`.
    unfoldable pub views : Str → List Str → List FeedConfig → List FeedView
    unfolding owner
    views self members [] = []
    views self members (fc ∷ fcs) = view self members fc ∷ views self members fcs

    unfoldable pub handle_feeds :
        Str → Option (Str × List Str) → Result (List FeedConfig) → Shown (List FeedView)
    unfolding views error_text
    handle_feeds self known (err e) = refused 500 (list_failed e)
    handle_feeds self known (ok fcs) =
        let (me, members) = self_and_members self known in shown (views me members fcs)

    unfoldable find_view : Str → List FeedView → Shown FeedView
    find_view feed_url [] = refused 404 (lit "feed not found")
    find_view feed_url (v ∷ vs) =
        let rest = find_view feed_url vs in if str_eq v.url feed_url then shown v else rest

    abbrev find_shown : Str → Shown (List FeedView) → Shown FeedView
    find_shown feed_url (refused code text) = refused code text
    find_shown feed_url (shown vs) = find_view feed_url vs

    unfoldable handle_feed_by_id :
        (Str → Result Str)
        → Str
        → Str
        → Option (Str × List Str)
        → Result (List FeedConfig)
        → Shown FeedView
    unfolding handle_feeds find_view
    handle_feed_by_id unescape id self known desired = elim (unescape id) [
      | err e ↦ refused 400 (lit "invalid feed id")
      | ok feed_url ↦ find_shown feed_url (handle_feeds self known desired)
    ]

  abbrev or_self : Str → List Str → List Str
  or_self self [] = self ∷ []
  or_self self (m ∷ ms) = m ∷ ms

  abbrev owner_or : Str → Option Str → Str
  owner_or self none = self
  owner_or self (some o) = o

  -- The loop of `handleMembers` over the feeds.
  unfoldable ownership : Str → List Str → List FeedConfig → List (Str × Str) → List (Str × Str)
  unfolding owner insert
  ownership self members [] m = m
  ownership self members (fc ∷ fcs) m =
      ownership self members fcs (insert fc.url (owner_or self (owner sum64 fc.url members)) m)

  abbrev feeds_or_none : Option (Result (List FeedConfig)) → List FeedConfig
  feeds_or_none none = []
  feeds_or_none (some (err e)) = []
  feeds_or_none (some (ok fcs)) = fcs

  pub record MembersView : Type 0 where
    pub self : Str
    pub members : List Str
    pub owners : List (Str × Str)

  unfoldable handle_members :
      Str → Option (Str × List Str) → Option (Result (List FeedConfig)) → MembersView
  unfolding ownership
  handle_members self known desired =
      let (me, ms) = self_and_members self known in
      let members = or_self me ms in
      record {
        self = me;
        members = members;
        owners = ownership me members (feeds_or_none desired) [];
      }
