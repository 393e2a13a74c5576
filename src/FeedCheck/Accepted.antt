-- ===== src/FeedCheck/Accepted.antt =====
-- What internal/config/validate.go promises of the feeds that it accepts.
use rss2msg.Prelude.{
  ℕ, suc, ◌≡◌, refl, Str, Bool, true, false, not, Option, none, some, List, [], ◌∷◌, All, is_empty,
  Bool-cases, inl, inr, ◌&&◌, ◌≢◌, ◌⊎◌, Memᴰ, lit, zero, sym, str_eq, str_eq_iff, str_eq_of_eq,
  arith, if◌then◌else◌,
}
use rss2msg.Prelude.Int.{ℤ, pos, negsuc, ltb_ℤ, leb_ℤ, ◌≤ℤ◌}
use rss2msg.Model.Space.{trim_space}
use rss2msg.Source.{FeedConfig, RetryConfig}
use rss2msg.SinkGraph.{mem_str, resolve_feed_sinks, validate_retry, RetryFault, max_below_base}
use rss2msg.FeedCheck.{
  FeedFault, second, default_sink, check_sink_names, then_check, retry_fault, default_retry_fault,
  lacks_default, check_feed, check_feeds_from, check_feeds, is_nil, reserved, check_headers,
}

then_check-none : (a b : Option FeedFault) → then_check a b ≡ none → (a ≡ none) × (b ≡ none)
then_check-none none b h = (refl, h)
then_check-none (some f) b h = absurd (cc)

-- The delays and the number of attempts of a policy are not negative, and the limit on a delay, where
-- there is one, is not below the first delay.
pub record IsConsistent (r : RetryConfig) : Type 0 where
  pub attempts : pos 0 ≤ℤ r.max_attempts
  pub base : pos 0 ≤ℤ r.base_delay
  pub most : pos 0 ≤ℤ r.max_delay
  pub ordered : (r.max_delay ≡ pos 0) ⊎ (r.base_delay ≤ℤ r.max_delay)

-- What the rest of the program relies on in a feed.
pub record IsUsable (canonical : Str → Str) (names : List Str) (f : FeedConfig) : Type 0 where
  pub url_given : trim_space f.url ≢ []
  pub interval_long : pos 1_000_000_000 ≤ℤ f.interval
  pub sinks_named : resolve_feed_sinks f ≢ []
  pub sinks_declared : All (λ s. Memᴰ s names) (resolve_feed_sinks f)
  pub headers_free :
      All
        (λ h.
          (canonical h.0 ≢ canonical (lit "If-None-Match"))
          × (canonical h.0 ≢ canonical (lit "If-Modified-Since")))
        f.headers
  pub retry_consistent : IsConsistent f.retry

nonempty : (s : Str) → is_empty s ≡ false → s ≢ []
nonempty [] h e = cc
nonempty (x ∷ s) h e = cc

limited :
    (base most : ℤ)
    → ltb_ℤ base (pos 0) ≡ false
    → ltb_ℤ most (pos 0) ≡ false
    → (if ltb_ℤ (pos 0) most && ltb_ℤ (pos 0) base && ltb_ℤ most base
        then some max_below_base
        else none)
      ≡ none
    → (most ≡ pos 0) ⊎ (base ≤ℤ most)
limited base (pos zero) b m h = inl refl
limited base (negsuc n) b m h = absurd (ground (arith, m))
limited (negsuc k) (pos (suc n)) b m h = absurd (ground (arith, b))
limited (pos k) (pos (suc n)) b m h = inr (ground (arith, h))

validate_retry-IsConsistent : (r : RetryConfig) → validate_retry r ≡ none → IsConsistent r
unfolding validate_retry
validate_retry-IsConsistent r h = elim (Bool-cases (ltb_ℤ r.max_attempts (pos 0))) [
  | inl e ↦ absurd (cc (rw e at h))
  | inr a ↦ elim (Bool-cases (ltb_ℤ r.base_delay (pos 0))) [
    | inl e ↦ absurd (cc (rw (a, e) at h))
    | inr b ↦ elim (Bool-cases (ltb_ℤ r.max_delay (pos 0))) [
      | inl e ↦ absurd (cc (rw (a, b, e) at h))
      | inr m ↦ record {
        attempts = not_below r.max_attempts (pos 0) a;
        base = not_below r.base_delay (pos 0) b;
        most = not_below r.max_delay (pos 0) m;
        ordered = limited r.base_delay r.max_delay b m (rw (a, b, m) at h);
      }
    ]
  ]
]
  where
    not_below : (x y : ℤ) → ltb_ℤ x y ≡ false → y ≤ℤ x
    not_below x y e = ground arith

mem_str-Memᴰ : (s : Str) (names : List Str) → mem_str s names ≡ true → Memᴰ s names
unfolding mem_str
mem_str-Memᴰ s [] h = absurd (cc)
mem_str-Memᴰ s (n ∷ names) h = elim (Bool-cases (str_eq n s)) [
  | inl e ↦ Memᴰ.head (sym ((str_eq_iff n s).0 e))
  | inr e ↦ Memᴰ.tail (mem_str-Memᴰ s names (rw e at h))
]

check_sink_names-All :
    (i : ℕ) (names ss : List Str) → check_sink_names i names ss ≡ none → All (λ s. Memᴰ s names) ss
unfolding check_sink_names
check_sink_names-All i names [] h = tt
check_sink_names-All i names (s ∷ ss) h = elim (Bool-cases (mem_str s names)) [
  | inl e ↦ (mem_str-Memᴰ s names e, check_sink_names-All i names ss (rw e at h))
  | inr e ↦ absurd (cc (rw e at h))
]

resolved :
    (names : List Str) (f : FeedConfig)
    → lacks_default names f.sinks ≡ false
    → All (λ s. Memᴰ s names) f.sinks
    → (resolve_feed_sinks f ≢ []) × All (λ s. Memᴰ s names) (resolve_feed_sinks f)
unfolding resolve_feed_sinks
resolved names f = chosen f.sinks
  where
    chosen :
        (ss : List Str)
        → lacks_default names ss ≡ false
        → All (λ s. Memᴰ s names) ss
        → let all : List Str = elim ss [ [] ↦ lit "default" ∷ [] | s ∷ rest ↦ s ∷ rest ] in
          (all ≢ []) × All (λ s. Memᴰ s names) all
    chosen [] h k = (
      λ e. absurd (cc),
      (mem_str-Memᴰ default_sink names (not-true (mem_str default_sink names) h), tt),
    )
      where
        not-true : (b : Bool) → not b ≡ false → b ≡ true
        not-true true e = refl
        not-true false e = absurd (cc)
    chosen (s ∷ ss) h k = ((λ e. absurd (cc)), k)

unreserved :
    (canonical : Str → Str) (j : Str)
    → mem_str j (reserved canonical) ≡ false
    → (j ≢ canonical (lit "If-None-Match")) × (j ≢ canonical (lit "If-Modified-Since"))
unfolding mem_str
unreserved canonical j h =
    let none_match = canonical (lit "If-None-Match") in
    let modified_since = canonical (lit "If-Modified-Since") in
    (
      λ e. ground (arith, h, str_eq_of_eq none_match j (sym e)),
      λ e. ground (arith, h, str_eq_of_eq modified_since j (sym e)),
    )

retry_fault-none : (i : ℕ) (o : Option RetryFault) → retry_fault i o ≡ none → o ≡ none
retry_fault-none i none h = refl
retry_fault-none i (some f) h = absurd (cc)

module _ (canonical : Str → Str) (names : List Str) where
  check_headers-All :
      (i : ℕ) (hs : List (Str × Str))
      → check_headers canonical i hs ≡ none
      → All
          (λ h.
            (canonical h.0 ≢ canonical (lit "If-None-Match"))
            × (canonical h.0 ≢ canonical (lit "If-Modified-Since")))
          hs
  unfolding check_headers
  check_headers-All i [] h = tt
  check_headers-All i ((k, v) ∷ hs) h =
      elim (Bool-cases (mem_str (canonical k) (reserved canonical))) [
        | inl e ↦ absurd (cc (rw e at h))
        | inr e ↦ (unreserved canonical (canonical k) e, check_headers-All i hs (rw e at h))
      ]

  check_feed-IsUsable :
      (i : ℕ) (f : FeedConfig) → check_feed canonical names i f ≡ none → IsUsable canonical names f
  unfolding check_feed
  check_feed-IsUsable i f h = elim (Bool-cases (is_empty (trim_space f.url))) [
    | inl e ↦ absurd (cc (rw e at h))
    | inr e ↦ elim (Bool-cases (ltb_ℤ f.interval second)) [
      | inl q ↦ absurd (cc (rw (e, q) at h))
      | inr q ↦ elim (Bool-cases (lacks_default names f.sinks)) [
        | inl d ↦ absurd (cc (rw (e, q, d) at h))
        | inr d ↦
            let long : pos 1_000_000_000 ≤ℤ f.interval = ground (arith, q) in
            let (a, rest) = then_check-none _ _ (rw (e, q, d) at h) in
            let (b, c) = then_check-none _ _ rest in
            record {
              url_given = nonempty (trim_space f.url) e;
              interval_long = long;
              sinks_named = (resolved names f d (check_sink_names-All i names f.sinks a)).0;
              sinks_declared = (resolved names f d (check_sink_names-All i names f.sinks a)).1;
              headers_free =
                  check_headers-All i f.headers
                    (then_check-none (check_headers canonical i f.headers) _ rest).0;
              retry_consistent =
                  validate_retry-IsConsistent f.retry
                    (retry_fault-none i (validate_retry f.retry) c);
            }
      ]
    ]
  ]

  check_feeds_from-IsUsable :
      (i : ℕ) (fs : List FeedConfig)
      → check_feeds_from canonical names i fs ≡ none
      → All (IsUsable canonical names) fs
  unfolding check_feeds_from
  check_feeds_from-IsUsable i [] h = tt
  check_feeds_from-IsUsable i (f ∷ fs) h =
      let (a, b) = then_check-none (check_feed canonical names i f) _ h in
      (check_feed-IsUsable i f a, check_feeds_from-IsUsable (suc i) fs b)

  -- A configuration whose feeds are accepted has, for every feed: a URL that is not all white space; an
  -- interval of 10^9 nanoseconds at least; no header that is If-None-Match or If-Modified-Since in
  -- canonical form; attempts and delays that are not negative, with a limit on the delay that is zero
  -- or not below the first delay; and a sink at least to publish to, all of which, as they are
  -- resolved, are declared.
  pub check_feeds-IsUsable :
      (retry : RetryConfig) (enabled : Bool) (interval : ℤ) (has_sources : Bool)
      (fs : List FeedConfig)
      → check_feeds canonical names retry enabled interval has_sources fs ≡ none
      → All (IsUsable canonical names) fs
  unfolding check_feeds
  check_feeds-IsUsable retry enabled interval has_sources fs h =
      let rest = (then_check-none (default_retry_fault (validate_retry retry)) _ h).1 in
      elim (Bool-cases (enabled && leb_ℤ interval (pos 0))) [
        | inl e ↦ absurd (cc (rw e at rest))
        | inr e ↦ elim (Bool-cases (is_nil fs && not has_sources)) [
          | inl q ↦ absurd (cc (rw (e, q) at rest))
          | inr q ↦ check_feeds_from-IsUsable 0 fs (rw (e, q) at rest)
        ]
      ]
