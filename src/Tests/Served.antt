-- ===== src/Tests/Served.antt =====
-- A memory store that is full, and a handler in front of it.
use mathlib.Core.List.{Perm}
use mathlib.Core.List.Perm
use rss2msg.Prelude.{
  ◌++◌, ◌⊎◌, ◌≤◌, All, length, take, ◌≡◌, refl, ◌↔◌, Str, lit, false, ◌==◌, ◌%◌, none, some, List,
  [], ◌∷◌, is_none, arith, str_eq, if◌then◌else◌,
}
use rss2msg.Prelude.Int.{pos}
use rss2msg.Prelude.Map.{lookup, insert}
use rss2msg.Errors.{ok, err}
use rss2msg.Model.{Change}
use rss2msg.Http.{Request}
use rss2msg.HttpAuth.{Auth, authenticate, cut_prefix}
use rss2msg.HttpAuth.Accepts.{Presents, authenticate_iff}
use rss2msg.FeedSink.Store.{MemoryStore, key, values, write, recent}
use rss2msg.FeedSink.Written.{IsStore, write-newest, write-IsStore, recent-newest}
use rss2msg.FeedSink.First.{Descending}
use rss2msg.FeedSink.Serve.{
  HandlerConfig, CachedDoc, Clocks, Env, auth_for, document, match_not_modified, serve_http,
}
use rss2msg.FeedSink.Served.{
  serve_http-blind, if_none_match, Admitted, revalidated, modified_since_own,
}
use rss2msg.Tests.Fixtures.{change, down}

abbrev second_change : Change
second_change = record change { item_id = lit "two"; detected_at = 9 }

abbrev full : MemoryStore
full = record { max = 1; by_key = (key change, change) ∷ [] }

as_ranged : List Change → List Change
as_ranged cs = cs

unchanged : (cs : List Change) → Perm (as_ranged cs) cs
unfolding as_ranged
unchanged cs = Perm.refl cs

full-IsStore : IsStore full
unfolding lookup
full-IsStore = record { keyed = (refl, tt); distinct = (refl, tt); bounded = omega arith }

write-newest_example :
    (kept rest : List Change) × Perm (values (write as_ranged second_change full).by_key) kept
    × Perm (kept ++ rest) (values (insert (key second_change) second_change full.by_key))
    × All (λ d. All (λ k. d.detected_at ≤ k.detected_at) kept) rest
    × (length kept ≤ 1)
    × ((length kept ≡ 1) ⊎ (rest ≡ []))
write-newest_example =
    write-newest as_ranged unchanged second_change full full-IsStore.keyed full-IsStore.distinct

recent-newest_example :
    (all : List Change) × (recent as_ranged 1 full ≡ take 1 all)
    × Perm all (values full.by_key)
    × Descending all
recent-newest_example = recent-newest as_ranged unchanged 1 full

write-IsStore_example : IsStore (write as_ranged second_change full)
write-IsStore_example = write-IsStore as_ranged unchanged second_change full full-IsStore

abbrev auth : Auth
auth = record {
  basic_users = [];
  bearer_tokens = record { name = lit "reader"; secret = lit "s" } ∷ [];
  api_keys = [];
  api_key_header = [];
}

abbrev cfg : HandlerConfig
cfg = record {
  meta = record { title = lit "t"; link = []; description = [] };
  rss_path = lit "/rss";
  atom_path = lit "/atom";
  render_cache_ttl = pos 1_000;
  cache_control_ttl = pos 0;
  rss_auth = none;
  atom_auth = some auth;
  started_at = 1;
}

-- Digests and renderings that can be computed with.
abbrev env : Env
env = record {
  sha256_hex = λ s. lit "00";
  to_rss = λ d. ok (lit "<rss>");
  to_atom = λ d. ok (lit "<feed>");
  escape_xml = λ s. s;
  http_time = λ t. lit "then";
  parse_time = λ s. some 1_000_000_000;
}

abbrev no_header : Str → Str
no_header k = []

abbrev request : Request
request = record {
  method = lit "GET";
  path = lit "/rss";
  host = lit "h";
  tls = false;
  remote_addr = lit "1";
  header = no_header;
  basic_auth = none;
}

abbrev on_atom : Request
on_atom = record request { path = lit "/atom" }

abbrev clocks : Clocks
clocks = record { asked = 10; built = 11; stamped = 12 }

abbrev later : Clocks
later = record { asked = 500; built = 501; stamped = 502 }

protected : auth_for cfg on_atom.path ≡ some auth
unfolding auth_for str_eq
protected = refl

refused : authenticate auth on_atom ≡ none
unfolding authenticate cut_prefix
refused = refl

serve_http-blind_example :
    ((serve_http env cfg clocks [] (ok (change ∷ [])) on_atom []).0
      ≡ (serve_http env cfg later [] (err down) on_atom []).0)
    × ((serve_http env cfg clocks [] (ok (change ∷ [])) on_atom []).1 ≡ [])
serve_http-blind_example =
    serve_http-blind env cfg auth on_atom clocks later [] (ok (change ∷ [])) (err down) [] []
      protected refused

abbrev doc : CachedDoc
doc = record {
  body = lit "<rss>";
  etag = lit "\"00\"";
  modified = change.detected_at;
  ct = lit "application/rss+xml";
  at = 12;
}

rendered : (document env cfg clocks request.path [] (ok (change ∷ [])) []).0 ≡ ok doc
unfolding document str_eq
rendered = refl

first : Admitted env cfg request
unfolding auth_for str_eq
first = record { surface = refl; reads = refl; credential = []; passes = refl }

again : Admitted env cfg (if_none_match doc.etag request)
unfolding auth_for str_eq
again = record { surface = refl; reads = refl; credential = []; passes = refl }

revalidated_example :
    let cache' = (serve_http env cfg clocks [] (ok (change ∷ [])) request []).1 in
    let w = (serve_http env cfg later [] (err down) (if_none_match doc.etag request) cache').0 in
    (w.status ≡ 304) × (w.body ≡ [])
revalidated_example =
    revalidated env cfg clocks later [] (ok (change ∷ [])) (err down) request [] doc refl first
      rendered refl again

-- A document that changed half a second after a whole one.
abbrev between : CachedDoc
between = record doc { modified = 1_500_000_000 }

abbrev since : Request
since = record request {
  header = λ k. if str_eq k (lit "If-Modified-Since") then lit "then" else [];
}

no_tag : since.header (lit "If-None-Match") ≡ []
unfolding str_eq
no_tag = refl

since_then : since.header (lit "If-Modified-Since") ≡ lit "then"
unfolding str_eq
since_then = refl

modified_since_own_example :
    match_not_modified env cfg since between ≡ (1_500_000_000 % 1_000_000_000 == 0)
modified_since_own_example = modified_since_own env cfg since between refl refl no_tag since_then

authenticate_iff_example : (is_none (authenticate auth on_atom) ≡ false) ↔ Presents auth on_atom
authenticate_iff_example = authenticate_iff auth on_atom

-- A surface that is off has the path "", which a request for a URL without a path asks for.
abbrev without_rss : HandlerConfig
without_rss = record cfg { rss_path = [] }

off_served :
    (serve_http env without_rss clocks []
      (ok (change ∷ []))
      (record request { path = [] })
      []).0.body
    ≡ lit "<rss>"
unfolding serve_http document str_eq
off_served = refl
