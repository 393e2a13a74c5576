-- ===== src/Redis/Membership.antt =====
-- internal/coord/redis/membership.go: the instances that are alive, each a key with a time to live.
-- A scan lists the keys in the order of the table; the server may list them in another. The client of
-- a cluster scans some node only, and the keys that it has are a parameter.
use rss2msg.Prelude.{
  ℕ, ◌+◌, Str, lit, Bool, true, not, ◌||◌, Option, none, some, List, [], ◌∷◌, ◌++◌, str_eq,
  if◌then◌else◌,
}
use rss2msg.Prelude.Map.{insert, filter_keys}
use rss2msg.Errors.{Err, Result, ok, err}
use rss2msg.HttpAuth.{cut_prefix}
use rss2msg.Redis.{Db, live, is_free}

-- `memberKeyPrefix`
abbrev pub member_key_prefix : Str
member_key_prefix = lit "rss2msg:coord:member:"

abbrev pub member_key : Str → Str
member_key self = member_key_prefix ++ self

-- The SET call of a heartbeat.
unfoldable pub set_member : ℕ → Str → ℕ → Db → Db
unfolding insert
set_member now self ttl db =
    insert (member_key self) (record { value = lit "1"; expires_at = now + ttl }) db

abbrev pub if_member : Bool → Option Str → List Str → List Str
if_member gone none ids = ids
if_member gone (some id) ids = if gone then ids else id ∷ ids

-- The mode for which the client is built.
pub data Mode : Type 0 where
  single sentinel cluster : Mode

-- The keys that the iterator of a SCAN goes over: all of them, or those of the nodes that it visits.
abbrev pub shows : Mode → (Str → Bool) → Str → Bool
shows single visited k = true
shows sentinel visited k = true
shows cluster visited k = visited k

-- The SCAN call over what is live and shown, each key without the prefix.
unfoldable pub scan : (Str → Bool) → ℕ → Db → List Str
unfolding cut_prefix
scan shown now [] = []
scan shown now ((k, e) ∷ db) =
    if_member (not (shown k) || is_free (live now (some e))) (cut_prefix member_key_prefix k)
      (scan shown now db)

-- `Heartbeat`, with what the two calls meet.
unfoldable pub heartbeat :
    Mode → (Str → Bool) → Option Err → Option Err → ℕ → Str → ℕ → Db → Result (List Str) × Db
unfolding set_member scan
heartbeat mode visited (some e) on_scan now self ttl db = (err e, db)
heartbeat mode visited none (some e) now self ttl db = (err e, set_member now self ttl db)
heartbeat mode visited none none now self ttl db =
    let db' = set_member now self ttl db in (ok (scan (shows mode visited) now db'), db')

unfoldable pub deregister : Option Err → Str → Db → Option Err × Db
unfolding filter_keys
deregister (some e) self db = (some e, db)
deregister none self db = (none, filter_keys (λ k. not (str_eq k (member_key self))) db)
