-- ===== src/Ownership.antt =====
-- internal/scheduler/ownerprovider.go: the feeds of a fleet's member, from the live members that its
-- heartbeats report. What the coordinator and the inner provider answer are arguments.
pub mod Partition
use rss2msg.Prelude.{
  ℕ, Str, Bool, true, false, not, ◌||◌, Option, none, some, List, [], ◌∷◌, ◌++◌, length, str_eq,
  str_lt, if◌then◌else◌,
}
use rss2msg.Prelude.Int.{ℤ, pos, leb_ℤ}
use rss2msg.Errors.{Err, Result, ok, err}
use rss2msg.Source.{FeedConfig}
use rss2msg.Assign.{owned, in_set}

-- `pending` is the signal waiting in the channel `changes`, which holds one at most.
pub record OwnerProvider : Type 0 where
  pub self : Str
  pub heartbeat : ℤ
  pub members : List Str
  pub last_key : Str
  pub pending : Bool

-- 10 s
abbrev default_heartbeat : ℤ
default_heartbeat = pos 10_000_000_000

unfoldable pub new_owner_provider : Str → ℤ → OwnerProvider
new_owner_provider self heartbeat = record {
  self = self;
  heartbeat = if leb_ℤ heartbeat (pos 0) then default_heartbeat else heartbeat;
  members = self ∷ [];
  last_key = [];
  pending = false;
}

-- sort.Strings; equal strings cannot be told apart, so its result is one list.
unfoldable pub insert_string : Str → List Str → List Str
insert_string s [] = s ∷ []
insert_string s (t ∷ ts) = if str_lt t s then t ∷ insert_string s ts else s ∷ (t ∷ ts)

unfoldable pub sort_strings : List Str → List Str
unfolding insert_string
sort_strings [] = []
sort_strings (s ∷ ss) = insert_string s (sort_strings ss)

-- strings.Join(ss, ",")
unfoldable pub member_key : List Str → Str
member_key [] = []
member_key (s ∷ []) = s
member_key (s ∷ t ∷ ss) = s ++ (44 ∷ member_key (t ∷ ss))

unfoldable pub urls : List FeedConfig → List Str
urls [] = []
urls (fc ∷ fcs) = fc.url ∷ urls fcs

-- `feeds, _ := o.inner.Desired(ctx)`: with an error there are no feeds.
abbrev feeds_or_nil : Result (List FeedConfig) → List FeedConfig
feeds_or_nil (err e) = []
feeds_or_nil (ok fcs) = fcs

-- `if _, ok := ownedSet[fc.URL]; ok { out = append(out, fc) }`
unfoldable pub keep_owned : List Str → List FeedConfig → List FeedConfig
unfolding in_set
keep_owned urls [] = []
keep_owned urls (fc ∷ fcs) =
    let rest = keep_owned urls fcs in if in_set fc.url urls then fc ∷ rest else rest

-- What one heartbeat returns, and the counts it reports to `onRebalance`, if it does.
pub record Beat : Type 0 where
  pub members : List Str
  pub error : Option Err
  pub rebalance : Option (ℕ × ℕ)

module _ (sum64 : Str → ℕ) where
  abbrev after_membership :
      Result (List Str) → Result (List FeedConfig) → OwnerProvider → Beat × OwnerProvider
  after_membership (err e) inner o =
      (record { members = o.members; error = some e; rebalance = none }, o)
  after_membership (ok members) inner o =
      let sorted = sort_strings members in
      let key = member_key sorted in
      let changed = not (str_eq key o.last_key) in
      let mine = owned sum64 o.self (urls (feeds_or_nil inner)) sorted in
      (
        record {
          members = sorted;
          error = none;
          rebalance = if changed then some (length sorted, length mine) else none;
        },
        record o { members = sorted; last_key = key; pending = o.pending || changed },
      )

  -- `Heartbeat`, with the answers of the membership and of the inner provider.
  unfoldable pub heartbeat :
      Result (List Str) → Result (List FeedConfig) → OwnerProvider → Beat × OwnerProvider
  unfolding sort_strings member_key urls
  heartbeat answer inner o = after_membership answer inner o

  -- `Desired`
  unfoldable pub owned_feeds : OwnerProvider → Result (List FeedConfig) → Result (List FeedConfig)
  unfolding urls keep_owned
  owned_feeds o (err e) = err e
  owned_feeds o (ok fcs) = ok (keep_owned (owned sum64 o.self (urls fcs) o.members) fcs)
