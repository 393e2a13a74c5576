-- ===== src/Admin.antt =====
-- internal/admin/admin.go and handlers.go: the middleware of the admin API, and the handlers that change
-- something: the prune, the manual poll and the reconcile. How a payload is written as JSON, a duration
-- is read and a path is unescaped is a parameter. What is decoded of a body is an argument; it is the
-- empty request for no body.
pub mod Prune
pub mod Views
pub mod Owned
use rss2msg.Prelude.{
  ℕ, suc, ◌+◌, ◌-◌, Str, lit, Bool, true, false, not, ◌||◌, ◌&&◌, Option, none, some, List, [], ◌∷◌,
  ◌++◌, is_empty, str_eq, if◌then◌else◌,
}
use rss2msg.Prelude.Int.{ℤ, pos, negsuc}
use rss2msg.Errors.{Err, Result, ok, err, error_text}
use rss2msg.Model.{Time}
use rss2msg.State.{Db, prune_items_before, prune_feed_meta_before}
use rss2msg.Source.{FeedConfig}
use rss2msg.SinkGraph.{mem_str}
use rss2msg.Http.{Request, Reply, set_header}
use rss2msg.HttpAuth.{Auth, empty, authenticate, write_challenge}

pub data Payload : Type 0 where
  error : Str → Payload
  pruned : ℕ → ℕ → Payload
  poll_triggered : Bool → Payload
  reconcile_triggered : Payload

pub record PruneRequest : Type 0 where
  pub items_older_than : Str
  pub feed_meta_older_than : Str

-- `durationOrDefault`
abbrev pub duration_or_default : (Str → Result ℤ) → Str → ℤ → Result ℤ
duration_or_default parse s default = if is_empty s then ok default else parse s

-- now.Add(-d); the cutoff of a long duration is the first instant.
abbrev pub back : Time → ℤ → Time
back now (pos n) = now - n
back now (negsuc n) = now + suc n

-- The statuses of the replies of the handlers, with their payloads.
abbrev pub Answer : Type 0
Answer = ℕ × Payload

abbrev failed : Str → ℕ → Err → Answer
failed what code e = (code, error (what ++ error_text e))

abbrev pub after_meta : ℕ → Result ℕ × Db → Answer × Db
after_meta items (err e, db) = (failed (lit "prune feed meta: ") 500 e, db)
after_meta items (ok n, db) = ((200, pruned items n), db)

abbrev pub after_items : Option Err → Time → Result ℕ × Db → Answer × Db
after_items fault cutoff (err e, db) = (failed (lit "prune items: ") 500 e, db)
after_items fault cutoff (ok n, db) = after_meta n (prune_feed_meta_before fault db cutoff)

abbrev pub prune_with : Option Err → Option Err → Time → Result ℤ → Result ℤ → Db → Answer × Db
prune_with f g now (err e) meta db = (failed (lit "items_older_than: ") 400 e, db)
prune_with f g now (ok d) (err e) db = (failed (lit "feed_meta_older_than: ") 400 e, db)
prune_with f g now (ok d) (ok m) db =
    after_items g (back now m) (prune_items_before f db (back now d))

-- The two faults are those of the statements.
unfoldable pub handle_prune :
    (Str → Result ℤ) → ℤ → Option Err → Option Err → PruneRequest → Time → Db → Answer × Db
unfolding prune_items_before prune_feed_meta_before error_text
handle_prune parse item_ttl f g req now db =
    prune_with f g now (duration_or_default parse req.items_older_than item_ttl)
      (duration_or_default parse req.feed_meta_older_than item_ttl) db

unfoldable is_known : Str → List FeedConfig → Bool
is_known feed_url [] = false
is_known feed_url (fc ∷ fcs) = str_eq fc.url feed_url || is_known feed_url fcs

-- `PollNow` is absent, or says whether the feed runs.
abbrev running : Option (Str → Bool) → Str → Bool
running none feed_url = false
running (some poll_now) feed_url = poll_now feed_url

-- The feed that is polled, if one is, with the reply.
abbrev poll_known : Option (Str → Bool) → Str → Result (List FeedConfig) → Option Str × Answer
poll_known poll_now feed_url (err e) = (none, failed (lit "list feeds: ") 500 e)
poll_known poll_now feed_url (ok fcs) =
    if is_known feed_url fcs
    then (some feed_url, (202, poll_triggered (running poll_now feed_url)))
    else (none, (404, error (lit "feed not found")))

unfoldable handle_feed_poll :
    (Str → Result Str) → Option (Str → Bool) → Str → Result (List FeedConfig) → Option Str × Answer
unfolding is_known error_text
handle_feed_poll unescape poll_now id desired = elim (unescape id) [
  | err e ↦ (none, (400, error (lit "invalid feed id")))
  | ok feed_url ↦ poll_known poll_now feed_url desired
]

-- Whether the reconcile is asked for, with the reply; the flag says whether there is one.
abbrev handle_reconcile : Bool → Bool × Answer
handle_reconcile false = (false, (503, error (lit "reconcile unavailable")))
handle_reconcile true = (true, (202, reconcile_triggered))

-- What a handler writes and does, from what the middleware has written.
abbrev Handler : Type 0
Handler = Reply → Db → Reply × Db

abbrev write_json : (Payload → Str) → Answer → Reply → Reply
write_json encode (code, v) w =
    record (set_header (lit "Content-Type") (lit "application/json") w) {
      status = code;
      body = encode v ++ (10 ∷ []);
    }

abbrev options : Request → Bool
options r = str_eq r.method (lit "OPTIONS")

abbrev after_auth : Auth → Handler → Option Str → Handler
after_auth a next none w db = (write_challenge a w, db)
after_auth a next (some name) w db = next w db

unfoldable with_auth : Auth → Handler → Request → Handler
unfolding authenticate empty write_challenge
with_auth a next r w db =
    if options r || empty a then next w db else after_auth a next (authenticate a r) w db

abbrev allow : Str → Reply → Reply
allow origin w =
    set_header (lit "Access-Control-Allow-Headers") (lit "Authorization, Content-Type, X-API-Key") (
      set_header (lit "Access-Control-Allow-Methods") (lit "GET, POST, OPTIONS") (
        set_header (lit "Access-Control-Allow-Credentials") (lit "true") (
          set_header (lit "Vary") (lit "Origin")
            (set_header (lit "Access-Control-Allow-Origin") origin w))))

abbrev no_origins : List Str → Bool
no_origins [] = true
no_origins (o ∷ os) = false

unfoldable with_cors : List Str → Handler → Request → Handler
unfolding mem_str
with_cors origins next r w db =
    let origin = r.header (lit "Origin") in
    let allowed = mem_str (lit "*") origins || mem_str origin origins in
    let w' = if not (is_empty origin) && allowed then allow origin w else w in
    if no_origins origins
    then next w db
    else if options r
    then (record w' { status = 204 }, db)
    else next w' db
