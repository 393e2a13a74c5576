-- ===== src/Source/Spec.antt =====
-- internal/feedsource/source.go: the serialised form of a feed, and its conversion. What
-- time.ParseDuration answers is a parameter.
use rss2msg.Prelude.{
  ◌≡◌, refl, ap, ◌∙◌, Str, lit, false, Option, none, some, List, [], ◌∷◌, ◌++◌, All, is_empty,
  if◌then◌else◌, Bool-cases, inl, inr,
}
use rss2msg.Prelude.Int.{ℤ, pos}
use rss2msg.Model.Space.{trim_space}
use rss2msg.Errors.{other, wrap, Result, ok, err, Result-cases}
use rss2msg.Source.{FeedConfig, RetryConfig}

pub record FeedSpecHttp : Type 0 where
  pub timeout : Str
  pub headers : List (Str × Str)

pub record FeedSpec : Type 0 where
  pub url : Str
  pub interval : Str
  pub sinks : List Str
  pub http : Option FeedSpecHttp

abbrev no_retry : RetryConfig
no_retry = record { max_attempts = pos 0; base_delay = pos 0; max_delay = pos 0 }

module _ (parse_duration : Str → Result ℤ) where
  -- A duration that is not given is 0; an error names the feed and the field.
  unfoldable duration : Str → Str → Str → Result ℤ
  duration url field [] = ok (pos 0)
  duration url field (x ∷ s) = elim (parse_duration (x ∷ s)) [
    | ok d ↦ ok d
    | err e ↦ err (wrap (lit "feed spec " ++ (url ++ (lit ": " ++ (field ++ lit ": ")))) e)
  ]

  abbrev timeout_of : Str → Option FeedSpecHttp → Result ℤ
  timeout_of url none = ok (pos 0)
  timeout_of url (some h) = duration url (lit "http.timeout") h.timeout

  abbrev headers_of : Option FeedSpecHttp → List (Str × Str)
  headers_of none = []
  headers_of (some h) = h.headers

  abbrev assemble : FeedSpec → Result ℤ → Result ℤ → Result FeedConfig
  assemble s (err e) timeout = err e
  assemble s (ok d) (err e) = err e
  assemble s (ok d) (ok t) = ok (record {
    url = s.url;
    interval = d;
    sinks = s.sinks;
    timeout = t;
    headers = headers_of s.http;
    retry = no_retry;
  })

  -- `ToFeedConfig`
  unfoldable to_feed_config : FeedSpec → Result FeedConfig
  unfolding duration
  to_feed_config s =
      if is_empty (trim_space s.url)
      then err (other (lit "feed spec: url is required"))
      else assemble s (duration s.url (lit "interval") s.interval) (timeout_of s.url s.http)

  abbrev prepend : Result FeedConfig → Result (List FeedConfig) → Result (List FeedConfig)
  prepend (err e) rest = err e
  prepend (ok fc) (err e) = err e
  prepend (ok fc) (ok fcs) = ok (fc ∷ fcs)

  -- `SpecsToConfigs`
  unfoldable pub specs_to_configs : List FeedSpec → Result (List FeedConfig)
  unfolding to_feed_config
  specs_to_configs [] = ok []
  specs_to_configs (s ∷ ss) = prepend (to_feed_config s) (specs_to_configs ss)

abbrev spec_urls : List FeedSpec → List Str
spec_urls [] = []
spec_urls (s ∷ ss) = s.url ∷ spec_urls ss

abbrev config_urls : List FeedConfig → List Str
config_urls [] = []
config_urls (fc ∷ fcs) = fc.url ∷ config_urls fcs

module _ (parse_duration : Str → Result ℤ) where
  url-assemble :
      (s : FeedSpec) (d t : Result ℤ) (fc : FeedConfig)
      → assemble parse_duration s d t ≡ ok fc
      → fc.url ≡ s.url
  url-assemble s (err e) t fc h = absurd (cc)
  url-assemble s (ok d) (err e) fc h = absurd (cc)
  url-assemble s (ok d) (ok t) fc h = cc

  converted :
      (s : FeedSpec) (fc : FeedConfig)
      → to_feed_config parse_duration s ≡ ok fc
      → (fc.url ≡ s.url) × (is_empty (trim_space fc.url) ≡ false)
  unfolding to_feed_config
  converted s fc h = elim (Bool-cases (is_empty (trim_space s.url))) [
    | inl e ↦ absurd (cc (rw e at h))
    | inr e ↦
        let q = url-assemble s _ _ fc (rw e at h) in (q, ap (λ u. is_empty (trim_space u)) q ∙ e)
  ]

  -- Converting a list of specifications fails as a whole or gives one feed for each, in order and
  -- under its URL, and none of them has a blank URL.
  pub specs_to_configs_lem :
      (ss : List FeedSpec) (fcs : List FeedConfig)
      → specs_to_configs parse_duration ss ≡ ok fcs
      → (config_urls fcs ≡ spec_urls ss) × All (λ fc. is_empty (trim_space fc.url) ≡ false) fcs
  unfolding specs_to_configs
  specs_to_configs_lem [] [] h = (refl, tt)
  specs_to_configs_lem [] (fc ∷ fcs) h = absurd (cc)
  specs_to_configs_lem (s ∷ ss) fcs h = elim (Result-cases (to_feed_config parse_duration s)) [
    | inl (e, p) ↦ absurd (cc (rw p at h))
    | inr (fc, p) ↦ elim (Result-cases (specs_to_configs parse_duration ss)) [
      | inl (e, q) ↦ absurd (cc (rw (p, q) at h))
      | inr (gs, q) ↦
          let (here, blank) = converted s fc p in
          let (there, blanks) = specs_to_configs_lem ss gs q in
          let same : fc ∷ gs ≡ fcs = cc (rw (p, q) at h) in
          rw (← same) (cc (here, there), (blank, blanks))
    ]
  ]
