-- ===== src/FeedSink/Serve.antt =====
-- internal/sink/feed/server.go: the handler of the RSS and the Atom surface, with its cache of
-- rendered documents. What the store answers, the clock, SHA-256, the forms of an instant and the
-- renderings are arguments; metrics and log lines are left out.
use rss2msg.Prelude.{
  ◌+◌, ◌/◌, Str, lit, Bool, true, false, not, ◌||◌, Option, none, some, List, [], ◌++◌, ltb,
  is_empty, decimal, quoted, str_eq, if◌then◌else◌,
}
use rss2msg.Prelude.Int.{ℤ, pos, pos_part, ltb_ℤ}
use rss2msg.Prelude.Map.{lookup, insert}
use rss2msg.Errors.{Result, ok, err}
use rss2msg.Model.{Time, Change}
use rss2msg.Http.{Request, Reply, set_header, no_reply, http_error}
use rss2msg.HttpAuth.{Auth, authenticate, authenticate_surface, write_challenge}
use rss2msg.FeedSink.Render.{
  FeedMeta, Document, build_feed, latest, inject_rss_self, inject_atom_self,
}

pub record HandlerConfig : Type 0 where
  pub meta : FeedMeta
  pub rss_path : Str
  pub atom_path : Str
  pub render_cache_ttl : ℤ
  pub cache_control_ttl : ℤ
  pub rss_auth : Option Auth
  pub atom_auth : Option Auth
  pub started_at : Time

pub record CachedDoc : Type 0 where
  pub body : Str
  pub etag : Str
  pub modified : Time
  pub ct : Str
  pub at : Time

-- The cache, by path.
abbrev pub Cache : Type 0
Cache = List (Str × CachedDoc)

-- The clock at the look into the cache, at the rendering, and at the new entry of the cache.
pub record Clocks : Type 0 where
  pub asked : Time
  pub built : Time
  pub stamped : Time

unfoldable pub auth_for : HandlerConfig → Str → Option Auth
auth_for cfg path = if str_eq path cfg.atom_path then cfg.atom_auth else cfg.rss_auth

abbrev is_private : Option Auth → Bool
is_private none = false
is_private (some a) = true

unfoldable pub set_cache_headers : HandlerConfig → Option Auth → Reply → Reply
unfolding decimal
set_cache_headers cfg a w =
    let scope = if is_private a then lit "private" else lit "public" in
    let age = decimal (pos_part cfg.cache_control_ttl / 1_000_000_000) in
    set_header (lit "Cache-Control")
      (if ltb_ℤ (pos 0) cfg.cache_control_ttl
        then scope ++ (lit ", max-age=" ++ age)
        else scope ++ lit ", no-cache")
      w

-- `lastModified`
abbrev pub last_modified : Time → List Change → Time
last_modified started changes = latest started changes

-- An entry that the cache still stands for.
abbrev pub fresh : ℤ → Time → Option CachedDoc → Option CachedDoc
fresh ttl now none = none
fresh ttl now (some d) = if ltb now (d.at + pos_part ttl) then some d else none

abbrev pub from_cache : HandlerConfig → Time → Str → Cache → Option CachedDoc
from_cache cfg now path cache =
    let hit = fresh cfg.render_cache_ttl now (lookup path cache) in
    if ltb_ℤ (pos 0) cfg.render_cache_ttl then hit else none

-- What stands in for code outside: sha256 in hex, the two renderings, XML escapes, and the form of an
-- instant in a header, written and read.
pub record Env : Type 0 where
  pub sha256_hex : Str → Str
  pub to_rss : Document → Result Str
  pub to_atom : Document → Result Str
  pub escape_xml : Str → Str
  pub http_time : Time → Str
  pub parse_time : Str → Option Time

module _ (env : Env) (cfg : HandlerConfig) where
  abbrev content_type : Str → Str
  content_type path =
      if str_eq path cfg.rss_path then lit "application/rss+xml" else lit "application/atom+xml"

  unfoldable pub render : Time → Str → List Change → Result Str
  unfolding build_feed
  render now path changes =
      let d = build_feed env.sha256_hex now cfg.meta changes in
      if str_eq path cfg.rss_path then env.to_rss d else env.to_atom d

  abbrev pub keep : Str → CachedDoc → Cache → Cache
  keep path d cache = if ltb_ℤ (pos 0) cfg.render_cache_ttl then insert path d cache else cache

  abbrev pub rendered : Clocks → Str → List Change → Result Str → Cache → Result CachedDoc × Cache
  rendered clocks path changes (err e) cache = (err e, cache)
  rendered clocks path changes (ok body) cache =
      let d : CachedDoc = record {
        body = body;
        etag = [];
        modified = last_modified cfg.started_at changes;
        ct = content_type path;
        at = clocks.stamped;
      } in
      (ok d, keep path d cache)

  abbrev pub on_miss : Clocks → Str → Result (List Change) → Cache → Result CachedDoc × Cache
  on_miss clocks path (err e) cache = (err e, cache)
  on_miss clocks path (ok changes) cache =
      rendered clocks path changes (render clocks.built path changes) cache

  abbrev pub or_render :
      Option CachedDoc → Clocks → Str → Result (List Change) → Cache → Result CachedDoc × Cache
  or_render (some d) clocks path stored cache = (ok d, cache)
  or_render none clocks path stored cache = on_miss clocks path stored cache

  -- `rawBody`; `stored` is what the store answers to `Recent`.
  unfoldable pub raw_body : Clocks → Str → Result (List Change) → Cache → Result CachedDoc × Cache
  unfolding render lookup insert
  raw_body clocks path stored cache =
      or_render (from_cache cfg clocks.asked path cache) clocks path stored cache

  abbrev pub with_self : Str → Str → CachedDoc → CachedDoc
  with_self path self_url raw =
      let body =
        if str_eq path cfg.rss_path
        then inject_rss_self env.escape_xml raw.body self_url
        else inject_atom_self env.escape_xml raw.body self_url in
      record raw { body = body; etag = quoted (env.sha256_hex body) }

  abbrev pub assemble : Str → Str → Result CachedDoc → Result CachedDoc
  assemble path self_url (err e) = err e
  assemble path self_url (ok raw) = ok (with_self path self_url raw)

  unfoldable pub document :
      Clocks → Str → Str → Result (List Change) → Cache → Result CachedDoc × Cache
  unfolding raw_body inject_rss_self inject_atom_self
  document clocks path self_url stored cache =
      let (raw, cache') = raw_body clocks path stored cache in (assemble path self_url raw, cache')

  abbrev pub unmodified_since : Time → Option Time → Bool
  unmodified_since modified none = false
  unmodified_since modified (some t) = not (ltb t modified)

  unfoldable pub match_not_modified : Request → CachedDoc → Bool
  match_not_modified r doc =
      let inm = r.header (lit "If-None-Match") in
      let ims = r.header (lit "If-Modified-Since") in
      if is_empty inm
      then (if is_empty ims then false else unmodified_since doc.modified (env.parse_time ims))
      else str_eq inm doc.etag

  abbrev pub described : Option Auth → CachedDoc → Reply
  described a doc = set_header (lit "Last-Modified") (env.http_time doc.modified) (
      set_header (lit "ETag") doc.etag
        (set_header (lit "Content-Type") doc.ct (set_cache_headers cfg a no_reply)))

  abbrev pub is_head : Request → Bool
  is_head r = str_eq r.method (lit "HEAD")

  abbrev pub send : Option Auth → Request → Result CachedDoc → Reply
  send a r (err e) = http_error (lit "internal error") 500 no_reply
  send a r (ok doc) =
      if match_not_modified r doc
      then record (described a doc) { status = 304 }
      else if is_head r
      then described a doc
      else record (described a doc) { body = doc.body }

  abbrev pub challenge : Option Auth → Reply
  challenge none = no_reply
  challenge (some a) = write_challenge a no_reply

  abbrev pub is_read : Request → Bool
  is_read r = str_eq r.method (lit "GET") || is_head r

  abbrev pub is_surface : Str → Bool
  is_surface path = str_eq path cfg.rss_path || str_eq path cfg.atom_path

  abbrev pub after_auth :
      Option Str → Clocks → Str → Result (List Change) → Request → Cache → Reply × Cache
  after_auth none clocks self_url stored r cache = (challenge (auth_for cfg r.path), cache)
  after_auth (some name) clocks self_url stored r cache =
      let (doc, cache') = document clocks r.path self_url stored cache in
      (send (auth_for cfg r.path) r doc, cache')

  -- ServeHTTP; `self_url` is the URL that the proxy settings give for this request.
  unfoldable pub serve_http : Clocks → Str → Result (List Change) → Request → Cache → Reply × Cache
  unfolding document match_not_modified set_cache_headers auth_for authenticate write_challenge
  serve_http clocks self_url stored r cache =
      let answer =
        after_auth (authenticate_surface (auth_for cfg r.path) r) clocks self_url stored r cache in
      if not (is_surface r.path)
      then (http_error (lit "404 page not found") 404 no_reply, cache)
      else if not (is_read r)
      then (
        http_error (lit "method not allowed") 405
            (set_header (lit "Allow") (lit "GET, HEAD") no_reply),
        cache,
      )
      else answer
