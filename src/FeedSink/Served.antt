-- ===== src/FeedSink/Served.antt =====
-- What the handler of internal/sink/feed/server.go gives away, and to whom.
use rss2msg.Prelude.{
  ◌+◌, ◌*◌, ◌/◌, ◌%◌, ◌≡◌, refl, ap, ◌∙◌, Str, lit, true, false, Option, none, some, List, [],
  arith, ltb, ◌==◌, is_empty, str_eq, str_eq_refl, if◌then◌else◌, Bool-cases, inl, inr,
}
use rss2msg.Prelude.Int.{ℤ, pos, pos_part, ltb_ℤ}
use rss2msg.Prelude.Map.{lookup, lookup-insert}
use rss2msg.Errors.{Result, ok, err}
use rss2msg.Model.{Time, Change}
use rss2msg.Http.{Request}
use rss2msg.HttpAuth.{Auth, authenticate, authenticate_surface}
use rss2msg.FeedSink.Serve.{
  HandlerConfig, CachedDoc, Cache, Clocks, Env, auth_for, fresh, from_cache, render, rendered,
  or_render, raw_body, with_self, assemble, document, match_not_modified, send, is_read, is_surface,
  serve_http, set_cache_headers,
}

-- The request with the entity tag of an earlier reply.
abbrev pub if_none_match : Str → Request → Request
if_none_match etag r = record r {
  header = λ k. if str_eq k (lit "If-None-Match") then etag else r.header k;
}

module _ (env : Env) (cfg : HandlerConfig) where
  -- A protected surface tells a request without a valid credential nothing: whatever the store and
  -- the cache hold, the reply is the same, and the cache stays as it is.
  pub serve_http-blind :
      (a : Auth) (r : Request) (c d : Clocks) (self_url : Str) (stored other : Result (List Change))
      (cache cache' : Cache)
      → auth_for cfg r.path ≡ some a
      → authenticate a r ≡ none
      → ((serve_http env cfg c self_url stored r cache).0
          ≡ (serve_http env cfg d self_url other r cache').0)
        × ((serve_http env cfg c self_url stored r cache).1 ≡ cache)
  unfolding serve_http
  serve_http-blind a r c d self_url stored other cache cache' protected refused =
      let e : authenticate_surface (auth_for cfg r.path) r ≡ none =
        ap (λ o. authenticate_surface o r) protected ∙ refused in
      elim (Bool-cases (is_surface env cfg r.path)) [
        | inr s ↦ rw s (refl, refl)
        | inl s ↦ elim (Bool-cases (is_read env cfg r)) [
          | inr m ↦ rw (s, m) (refl, refl)
          | inl m ↦ rw (s, m, e) (refl, refl)
        ]
      ]

  fresh-hit :
      (ttl : ℤ) (now : Time) (o : Option CachedDoc) (d : CachedDoc)
      → fresh ttl now o ≡ some d
      → o ≡ some d
  fresh-hit ttl now none d h = absurd (cc)
  fresh-hit ttl now (some x) d h = elim (Bool-cases (ltb now (x.at + pos_part ttl))) [
    | inl e ↦ rw e at h
    | inr e ↦ absurd (cc (rw e at h))
  ]

  kept :
      (c : Clocks) (path : Str) (changes : List Change) (text : Result Str) (cache : Cache)
      (d : CachedDoc)
      → ltb_ℤ (pos 0) cfg.render_cache_ttl ≡ true
      → (rendered env cfg c path changes text cache).0 ≡ ok d
      → lookup path (rendered env cfg c path changes text cache).1 ≡ some d
  kept c path changes (err e) cache d on h = absurd (cc)
  kept c path changes (ok body) cache d on h =
      rw on (lookup-insert path path _ cache ∙ rw (str_eq_refl path) (ok-inj h))
    where
      ok-inj : {x y : CachedDoc} → ok x ≡ ok y → some x ≡ some y
      ok-inj e = cc

  -- A document that was handed out stands in the cache.
  raw_body-cached :
      (c : Clocks) (path : Str) (stored : Result (List Change)) (cache : Cache) (d : CachedDoc)
      → ltb_ℤ (pos 0) cfg.render_cache_ttl ≡ true
      → (raw_body env cfg c path stored cache).0 ≡ ok d
      → lookup path (raw_body env cfg c path stored cache).1 ≡ some d
  unfolding raw_body
  raw_body-cached c path stored cache d on h =
      after (from_cache cfg c.asked path cache)
        (rw on (λ x q. fresh-hit cfg.render_cache_ttl c.asked (lookup path cache) x q)) stored h
    where
      after :
          (o : Option CachedDoc)
          → ((x : CachedDoc) → o ≡ some x → lookup path cache ≡ some x)
          → (stored : Result (List Change)) → (or_render env cfg o c path stored cache).0 ≡ ok d
          → lookup path (or_render env cfg o c path stored cache).1 ≡ some d
      after (some x) hit s k = hit d cc
      after none hit (err e) k = absurd (cc)
      after none hit (ok changes) k =
          kept c path changes (render env cfg c.built path changes) cache d on k

  raw_body-again :
      (c : Clocks) (path : Str) (other : Result (List Change)) (cache : Cache) (d : CachedDoc)
      → ltb_ℤ (pos 0) cfg.render_cache_ttl ≡ true
      → ltb c.asked (d.at + pos_part cfg.render_cache_ttl) ≡ true
      → lookup path cache ≡ some d
      → raw_body env cfg c path other cache ≡ (ok d, cache)
  unfolding raw_body
  raw_body-again c path other cache d on soon h = rw (on, h, soon) refl

  document-raw :
      (c : Clocks) (path self_url : Str) (stored : Result (List Change)) (cache : Cache)
      (d : CachedDoc)
      → (document env cfg c path self_url stored cache).0 ≡ ok d
      → (raw : CachedDoc) × ((raw_body env cfg c path stored cache).0 ≡ ok raw)
        × (with_self env cfg path self_url raw ≡ d)
  unfolding document
  document-raw c path self_url stored cache d h =
      after (raw_body env cfg c path stored cache).0 refl h
    where
      after :
          (o : Result CachedDoc)
          → (raw_body env cfg c path stored cache).0 ≡ o
          → assemble env cfg path self_url o ≡ ok d
          → (raw : CachedDoc) × ((raw_body env cfg c path stored cache).0 ≡ ok raw)
            × (with_self env cfg path self_url raw ≡ d)
      after (err e) q k = absurd (cc)
      after (ok raw) q k = (raw, q, cc)

  -- As long as a document is not older than the cache allows, every request for it gets the same
  -- document, whatever the store holds by then.
  pub document-again :
      (c later : Clocks) (path self_url : Str) (stored other : Result (List Change)) (cache : Cache)
      (d : CachedDoc)
      → ltb_ℤ (pos 0) cfg.render_cache_ttl ≡ true
      → (document env cfg c path self_url stored cache).0 ≡ ok d
      → ltb later.asked (d.at + pos_part cfg.render_cache_ttl) ≡ true
      → (document env cfg later path self_url other
          (document env cfg c path self_url stored cache).1).0
        ≡ ok d
  unfolding document
  document-again c later path self_url stored other cache d on h soon =
      let (raw, q, e) = document-raw c path self_url stored cache d h in
      let same_at : raw.at ≡ d.at = ap (λ x. x.at) e in
      let again =
        raw_body-again later path other (raw_body env cfg c path stored cache).1 raw on
          (rw same_at soon) (raw_body-cached c path stored cache raw on q) in
      ap (λ o. assemble env cfg path self_url o.0) again ∙ ap ok e

  -- A request that the handler reads a document for.
  pub record Admitted (r : Request) : Type 0 where
    pub surface : is_surface env cfg r.path ≡ true
    pub reads : is_read env cfg r ≡ true
    pub credential : Str
    pub passes : authenticate_surface (auth_for cfg r.path) r ≡ some credential

  serve_http-Admitted :
      (c : Clocks) (self_url : Str) (stored : Result (List Change)) (r : Request) (cache : Cache)
      → Admitted r
      → serve_http env cfg c self_url stored r cache ≡ (
        send env cfg (auth_for cfg r.path) r (document env cfg c r.path self_url stored cache).0,
        (document env cfg c r.path self_url stored cache).1,
      )
  unfolding serve_http
  serve_http-Admitted c self_url stored r cache a = rw (a.surface, a.reads, a.passes) refl

  tagged :
      (path self_url : Str) (raw d : CachedDoc)
      → with_self env cfg path self_url raw ≡ d
      → is_empty d.etag ≡ false
  tagged path self_url raw d e = rw (← e) refl

  not_modified :
      (a : Option Auth) (r : Request) (d : CachedDoc)
      → is_empty d.etag ≡ false
      → let w = send env cfg a (if_none_match d.etag r) (ok d) in (w.status ≡ 304) × (w.body ≡ [])
  unfolding match_not_modified set_cache_headers
  not_modified a r d e = rw (str_eq_refl (lit "If-None-Match"), e, str_eq_refl d.etag) (refl, refl)

  -- A client that has got a document and asks again with its entity tag, while the document is not
  -- older than the cache allows, is told that it is not modified and gets no body, whatever the store
  -- holds by then; both requests pass.
  pub revalidated :
      (c later : Clocks) (self_url : Str) (stored other : Result (List Change)) (r : Request)
      (cache : Cache) (d : CachedDoc)
      → ltb_ℤ (pos 0) cfg.render_cache_ttl ≡ true
      → Admitted r
      → (document env cfg c r.path self_url stored cache).0 ≡ ok d
      → ltb later.asked (d.at + pos_part cfg.render_cache_ttl) ≡ true
      → Admitted (if_none_match d.etag r)
      → let cache' = (serve_http env cfg c self_url stored r cache).1 in
        let w = (serve_http env cfg later self_url other (if_none_match d.etag r) cache').0 in
        (w.status ≡ 304) × (w.body ≡ [])
  revalidated c later self_url stored other r cache d on first h soon second =
      let (raw, q, e) = document-raw c r.path self_url stored cache d h in
      let cache' = (document env cfg c r.path self_url stored cache).1 in
      let again = document-again c later r.path self_url stored other cache d on h soon in
      let same : (serve_http env cfg c self_url stored r cache).1 ≡ cache' =
        ap (λ x. x.1) (serve_http-Admitted c self_url stored r cache first) in
      let sent : (serve_http env cfg later self_url other (if_none_match d.etag r) cache').0
          ≡ send env cfg (auth_for cfg r.path) (if_none_match d.etag r) (ok d) =
        ap (λ x. x.0)
          (serve_http-Admitted later self_url other (if_none_match d.etag r) cache' second)
        ∙ ap (send env cfg (auth_for cfg r.path) (if_none_match d.etag r)) again in
      rw same (rw sent (not_modified (auth_for cfg r.path) r d (tagged r.path self_url raw d e)))

  -- A request with no entity tag whose If-Modified-Since is the Last-Modified of the document itself
  -- is answered as not modified exactly if the document changed on a whole second: the form of an
  -- instant in a header has no fraction of a second.
  pub modified_since_own :
      (r : Request) (d : CachedDoc)
      → env.parse_time (env.http_time d.modified)
        ≡ some (d.modified / 1_000_000_000 * 1_000_000_000)
      → is_empty (env.http_time d.modified) ≡ false
      → r.header (lit "If-None-Match") ≡ []
      → r.header (lit "If-Modified-Since") ≡ env.http_time d.modified
      → match_not_modified env cfg r d ≡ (d.modified % 1_000_000_000 == 0)
  unfolding match_not_modified
  modified_since_own r d parsed given none_match since =
      rw (none_match, since, given, parsed) (ground arith)
