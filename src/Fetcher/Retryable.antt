-- ===== src/Fetcher/Retryable.antt =====
-- Which failures of a fetch are tried again (internal/feed/fetcher.go and errors.go).
use rss2msg.Prelude.{
  ℕ, ◌≡◌, ◌∙◌, refl, ap, sym, Str, lit, Bool, true, false, not, ◌||◌, Option, none, some, arith,
  leb, decimal, ◌++◌, ◌==◌, ◌↔◌, ◌⊎◌, Bool-cases, inl, inr,
}
use rss2msg.Errors.{
  Err, other, wrap, fetch, request, transport, parse, status, Result, ok, err, is_canceled,
  is_retryable, as_fetch_error,
}
use rss2msg.Model.{Time}
use rss2msg.World.{ParsedFeed, FetchRequest, FetchResult}
use rss2msg.Fetcher.{
  Options, Settings, HttpRequest, Response, after_parse, is_success, classify_response,
  after_exchange, after_build, request_of, fetch_feed,
}

-- The server may answer otherwise the next time.
abbrev pub is_transient : ℕ → Bool
is_transient n = leb 500 n || n == 429

-- The exchange failed, other than by the cancellation of the fetch; or it brought such an answer.
abbrev pub Transient : Result Response → Type 0
Transient r =
    ((d : Err) × (r ≡ err d) × (is_canceled d ≡ false))
    ⊎ ((resp : Response) × (r ≡ ok resp) × (is_transient resp.status ≡ true))

parsed :
    (res : FetchResult) (p : Result ParsedFeed) (e : Err)
    → (after_parse res p).1 ≡ some e
    → is_retryable e ≡ false
unfolding is_retryable as_fetch_error
parsed res (err d) e h =
    let it : fetch parse 0 (wrap (lit "parse feed: ") d) ≡ e = cc in rw (← it) refl
parsed res (ok f) e h = absurd (cc)

module _ (parse_time : Str → Option Time) (parse_feed : Str → Result ParsedFeed) where
  answered :
      (resp : Response) (e : Err)
      → (classify_response parse_time parse_feed resp).1 ≡ some e
      → is_retryable e ≡ is_transient resp.status
  unfolding classify_response is_retryable as_fetch_error decimal
  answered resp e h = elim (Bool-cases (resp.status == 304)) [
    | inl q ↦ absurd (cc (rw q at h))
    | inr q ↦ elim (Bool-cases (is_success resp.status)) [
      | inl p ↦
          let final : is_transient resp.status ≡ false = ground (arith, p) in
          parsed _ (parse_feed resp.body) e (rw (q, p) at h) ∙ sym final
      | inr p ↦
          let it : fetch status resp.status
                (other (lit "unexpected status " ++ decimal resp.status))
              ≡ e =
            cc (rw (q, p) at h) in
          rw (← it) refl
    ]
  ]

  exchanged :
      (r : Result Response) (e : Err)
      → (after_exchange parse_time parse_feed r).1 ≡ some e
      → (is_retryable e ≡ true) ↔ Transient r
  unfolding is_retryable as_fetch_error is_canceled
  exchanged (err d) e h =
      let it : fetch transport 0 (wrap (lit "http get: ") d) ≡ e = cc in
      rw (← it) (
        λ k. inl (d, refl, flip (is_canceled d) k),
        λ t. elim t [
          | inl (x, q, n) ↦ let same : d ≡ x = cc in rw (same, n) refl
          | inr (x, q, n) ↦ absurd (cc)
        ],
      )
    where
      flip : (b : Bool) → not b ≡ true → b ≡ false
      flip true k = absurd (cc)
      flip false k = refl
  exchanged (ok resp) e h =
      let same = answered resp e h in
      (
        λ k. inr (resp, refl, sym same ∙ k),
        λ t. elim t [
          | inl (x, q, n) ↦ absurd (cc)
          | inr (x, q, n) ↦ let it : resp ≡ x = cc in same ∙ ap (λ y. is_transient y.status) it ∙ n
        ],
      )

  -- A fetch that fails is tried again if and only if its request was built, and the exchange failed
  -- other than by the cancellation of the fetch or brought an answer with a status of 500 or above
  -- or of 429.
  pub fetch_retryable_iff :
      (canonical : Str → Str) (http_format : Time → Str) (build_fault : Str → Option Err)
      (exchange : HttpRequest → Result Response) (opts : Options) (s : Settings) (fr : FetchRequest)
      (e : Err)
      → (fetch_feed canonical http_format parse_time parse_feed build_fault exchange opts s fr).1
        ≡ some e
      → (is_retryable e ≡ true) ↔ (
          (build_fault fr.url ≡ none)
          × Transient (exchange (request_of canonical http_format opts s fr)))
  unfolding fetch_feed is_retryable as_fetch_error
  fetch_retryable_iff canonical http_format build_fault exchange opts s fr e h =
      split (build_fault fr.url) h
    where
      req : HttpRequest
      req = request_of canonical http_format opts s fr

      split :
          (b : Option Err)
          → (after_build canonical http_format parse_time parse_feed build_fault exchange b req).1
            ≡ some e
          → (is_retryable e ≡ true) ↔ ((b ≡ none) × Transient (exchange req))
      split none k =
          let (to, from) = exchanged (exchange req) e k in (λ t. (refl, to t), λ p. from p.1)
      split (some d) k =
          let it : fetch request 0 (wrap (lit "build request: ") d) ≡ e = cc in
          rw (← it) (λ t. absurd (cc), λ p. absurd (cc))
