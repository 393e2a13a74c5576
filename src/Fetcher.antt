-- ===== src/Fetcher.antt =====
-- internal/feed/fetcher.go: the request of a fetch and what becomes of its answer. The exchange itself,
-- the parser of feeds, the canonical form of a header's name and the time format of HTTP are
-- parameters. A header has one value. The fields of FetchRequest that come from the feed's settings
-- are `Settings`.
pub mod Retryable
pub mod Conditional
use rss2msg.Prelude.{
  ℕ, Str, lit, Bool, true, false, ◌&&◌, Option, none, some, List, [], ◌∷◌, ◌++◌, decimal, is_empty,
  leb, ltb, ◌==◌, if◌then◌else◌,
}
use rss2msg.Prelude.Int.{ℤ, pos, ltb_ℤ, leb_ℤ}
use rss2msg.Prelude.Map.{insert}
use rss2msg.Errors.{Err, other, wrap, fetch, request, transport, parse, status, Result, ok, err}
use rss2msg.Model.{Time}
use rss2msg.World.{ParsedFeed, FetchRequest, FetchResult}

pub record Options : Type 0 where
  pub user_agent : Str
  pub timeout : ℤ

-- `FetchRequest.Headers` and `FetchRequest.Timeout`
pub record Settings : Type 0 where
  pub headers : List (Str × Str)
  pub timeout : ℤ

-- 30 s
abbrev default_timeout : ℤ
default_timeout = pos 30_000_000_000

-- The options of a Fetcher.
unfoldable new_fetcher : Options → Options
new_fetcher opts =
    if leb_ℤ opts.timeout (pos 0) then record opts { timeout = default_timeout } else opts

pub record HttpRequest : Type 0 where
  pub url : Str
  pub headers : List (Str × Str)
  pub timeout : ℤ

pub record Response : Type 0 where
  pub status : ℕ
  -- Header.Get: "" for a header that is not there
  pub header : Str → Str
  pub body : Str

abbrev timeout_of : Options → Settings → ℤ
timeout_of opts s = if ltb_ℤ (pos 0) s.timeout then s.timeout else opts.timeout

abbrev pub set_given : Str → Str → List (Str × Str) → List (Str × Str)
set_given k v h = if is_empty v then h else insert k v h

-- FetchResult{}
abbrev no_result : FetchResult
no_result = record { status = 0; not_modified = false; etag = []; last_modified = 0; feed = none }

abbrev or_zero : Option Time → Time
or_zero none = 0
or_zero (some t) = t

abbrev pub after_parse : FetchResult → Result ParsedFeed → FetchResult × Option Err
after_parse res (err e) = (res, some (fetch parse 0 (wrap (lit "parse feed: ") e)))
after_parse res (ok f) = (record res { feed = some f }, none)

abbrev pub is_success : ℕ → Bool
is_success n = leb 200 n && ltb n 300

module _ (canonical : Str → Str) (http_format : Time → Str) where
  unfoldable pub default_headers : Options → FetchRequest → List (Str × Str)
  unfolding insert
  default_headers opts fr =
      let agent = set_given (canonical (lit "User-Agent")) opts.user_agent [] in
      let tagged = set_given (canonical (lit "If-None-Match")) fr.etag agent in
      if fr.last_modified == 0
      then tagged
      else insert (canonical (lit "If-Modified-Since")) (http_format fr.last_modified) tagged

  -- An override with no value stands in the request as an empty value.
  unfoldable pub override : List (Str × Str) → List (Str × Str) → List (Str × Str)
  unfolding insert
  override [] h = h
  override ((k, v) ∷ overrides) h = override overrides (insert (canonical k) v h)

  unfoldable pub request_headers : Options → Settings → FetchRequest → List (Str × Str)
  unfolding default_headers override
  request_headers opts s fr = override s.headers (default_headers opts fr)

  -- What is handed to the client.
  abbrev pub request_of : Options → Settings → FetchRequest → HttpRequest
  request_of opts s fr = record {
    url = fr.url;
    headers = request_headers opts s fr;
    timeout = timeout_of opts s;
  }

module _ (parse_time : Str → Option Time) (parse_feed : Str → Result ParsedFeed) where
  -- The fields of the result that come from the headers of an answer.
  abbrev result_of : Response → FetchResult
  result_of resp = record {
    status = resp.status;
    not_modified = false;
    etag = resp.header (lit "ETag");
    last_modified =
        let lm = resp.header (lit "Last-Modified") in
        if is_empty lm then 0 else or_zero (parse_time lm);
    feed = none;
  }

  unfoldable pub classify_response : Response → FetchResult × Option Err
  unfolding decimal
  classify_response resp =
      let res = result_of resp in
      let unexpected = other (lit "unexpected status " ++ decimal resp.status) in
      if resp.status == 304
      then (record res { not_modified = true }, none)
      else if is_success resp.status
      then after_parse res (parse_feed resp.body)
      else (res, some (fetch status resp.status unexpected))

  abbrev pub after_exchange : Result Response → FetchResult × Option Err
  after_exchange (err e) = (no_result, some (fetch transport 0 (wrap (lit "http get: ") e)))
  after_exchange (ok resp) = classify_response resp

module _ (canonical : Str → Str) (http_format : Time → Str) (parse_time : Str → Option Time)
    (parse_feed : Str → Result ParsedFeed) (build_fault : Str → Option Err)
    (exchange : HttpRequest → Result Response) where
  abbrev pub after_build : Option Err → HttpRequest → FetchResult × Option Err
  after_build (some e) req = (no_result, some (fetch request 0 (wrap (lit "build request: ") e)))
  after_build none req = after_exchange parse_time parse_feed (exchange req)

  unfoldable pub fetch_feed : Options → Settings → FetchRequest → FetchResult × Option Err
  unfolding request_headers classify_response
  fetch_feed opts s fr =
      after_build (build_fault fr.url) (request_of canonical http_format opts s fr)
