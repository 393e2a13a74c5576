-- ===== src/Fetcher/Conditional.antt =====
-- What a fetch of an accepted feed tells the server of the version that is known
-- (internal/feed/fetcher.go and internal/config/validate.go).
use rss2msg.Prelude.{
  ◌≡◌, ◌≢◌, ◌⊎◌, ◌∙◌, refl, sym, Str, lit, Bool, false, none, some, List, [], ◌∷◌, All, All-mem,
  Memᴰ, is_empty, str_eq, str_eq_refl, ◌==◌, Bool-cases, inl, inr,
}
use rss2msg.Prelude.Int.{ℤ}
use rss2msg.Prelude.Map.{lookup, insert, lookup-insert, str_eq-false}
use rss2msg.Model.{Time}
use rss2msg.World.{FetchRequest}
use rss2msg.Source.{FeedConfig, RetryConfig}
use rss2msg.FeedCheck.{check_feeds}
use rss2msg.FeedCheck.Accepted.{IsUsable, check_feeds-IsUsable}
use rss2msg.Fetcher.{
  Options, Settings, set_given, default_headers, override, request_headers, request_of,
}

module _ (canonical : Str → Str) (http_format : Time → Str) where
  override-kept :
      (k : Str) (hs h : List (Str × Str))
      → All (λ p. str_eq (canonical p.0) k ≡ false) hs
      → lookup k (override canonical http_format hs h) ≡ lookup k h
  unfolding override
  override-kept k [] h a = refl
  override-kept k ((j, v) ∷ hs) h a =
      override-kept k hs (insert (canonical j) v h) a.1
      ∙ lookup-insert (canonical j) k v h
      ∙ rw a.0 refl

  abbrev none_match : Str
  none_match = canonical (lit "If-None-Match")

  abbrev modified_since : Str
  modified_since = canonical (lit "If-Modified-Since")

  free_of :
      (k : Str) (hs : List (Str × Str))
      → All (λ p. (canonical p.0 ≢ none_match) × (canonical p.0 ≢ modified_since)) hs
      → (k ≡ none_match) ⊎ (k ≡ modified_since)
      → All (λ p. str_eq (canonical p.0) k ≡ false) hs
  free_of k [] a o = tt
  free_of k ((j, v) ∷ hs) a o = (
    str_eq-false (canonical j) k
        (elim o [ inl e ↦ λ q. a.0.0 (q ∙ e) | inr e ↦ λ q. a.0.1 (q ∙ e) ]),
    free_of k hs a.1 o,
  )

  tagged :
      (opts : Options) (fr : FetchRequest)
      → none_match ≢ modified_since
      → is_empty fr.etag ≡ false
      → lookup none_match (default_headers canonical http_format opts fr) ≡ some fr.etag
  unfolding default_headers
  tagged opts fr ne given =
      let agent = set_given (canonical (lit "User-Agent")) opts.user_agent [] in
      let there : lookup none_match (insert none_match fr.etag agent) ≡ some fr.etag =
        lookup-insert none_match none_match fr.etag agent ∙ rw (str_eq_refl none_match) refl in
      elim (Bool-cases (fr.last_modified == 0)) [
        | inl q ↦ rw (q, given) there
        | inr q ↦
            rw (q, given)
              (lookup-insert modified_since none_match (http_format fr.last_modified)
                  (insert none_match fr.etag agent)
                ∙ rw (str_eq-false modified_since none_match (λ e. ne (sym e))) there)
      ]

  dated :
      (opts : Options) (fr : FetchRequest)
      → (fr.last_modified == 0) ≡ false
      → lookup modified_since (default_headers canonical http_format opts fr)
        ≡ some (http_format fr.last_modified)
  unfolding default_headers
  dated opts fr given =
      let agent = set_given (canonical (lit "User-Agent")) opts.user_agent [] in
      rw given (
        lookup-insert modified_since modified_since (http_format fr.last_modified)
          (set_given none_match fr.etag agent)
        ∙ rw (str_eq_refl modified_since) refl)

  -- A fetch of a feed of an accepted configuration sends the validators that are known of it: the
  -- entity tag in If-None-Match if there is one, and the time in If-Modified-Since unless it is zero.
  -- The feed's own headers do not change either, since the configuration would have been refused. The
  -- two names differ in canonical form.
  pub accepted_conditional :
      (names : List Str) (retry : RetryConfig) (enabled : Bool) (interval : ℤ) (has_sources : Bool)
      (fs : List FeedConfig) (f : FeedConfig) (opts : Options) (timeout : ℤ) (fr : FetchRequest)
      → none_match ≢ modified_since
      → check_feeds canonical names retry enabled interval has_sources fs ≡ none
      → Memᴰ f fs
      → let s : Settings = record { headers = f.headers; timeout = timeout } in
        let sent = (request_of canonical http_format opts s fr).headers in
        (is_empty fr.etag ≡ false → lookup none_match sent ≡ some fr.etag)
        × ((fr.last_modified == 0) ≡ false
            → lookup modified_since sent ≡ some (http_format fr.last_modified))
  unfolding request_headers
  accepted_conditional names retry enabled interval has_sources fs f opts timeout fr ne accepted m =
      let usable =
        All-mem (IsUsable canonical names) fs
          (check_feeds-IsUsable canonical names retry enabled interval has_sources fs accepted) m in
      let free = usable.headers_free in
      let plain = default_headers canonical http_format opts fr in
      (
        λ given.
            override-kept none_match f.headers plain (free_of none_match f.headers free (inl refl))
            ∙ tagged opts fr ne given,
        λ given.
            override-kept modified_since f.headers plain
              (free_of modified_since f.headers free (inr refl))
            ∙ dated opts fr given,
      )
