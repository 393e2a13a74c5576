-- ===== src/Tests/Proxied.antt =====
-- Requests that come through a trusted proxy or past it, and lists of proxies.
use mathlib.Core.Path.{subst}
use rss2msg.Prelude.{
  ◌≡◌, refl, ◌↔◌, Str, lit, Bool, true, false, ◌||◌, ◌&&◌, Option, none, some, List, [], ◌∷◌, ◌++◌,
  Memᴰ, All, is_empty, str_eq, if◌then◌else◌, inl, inr, Bool-cases, is_none,
}
use rss2msg.Prelude.Bytes.{split, has_byte}
use rss2msg.Prelude.Map.{lookup}
use rss2msg.Errors.{Result, ok, err}
use rss2msg.Model.Space.{trim_space}
use rss2msg.Http.{Request}
use rss2msg.FeedSink.Proxy.{preset_cidrs, parse_trusted_proxies, any_contains, trusts, client_ip}
use rss2msg.FeedSink.Client.{with_chain, IsClient, client_ip-spoofed}
use rss2msg.Config.ProxyEntry.{is_ok, validate_trusted_proxy_entry}
use rss2msg.Config.Proxies.{Documented, parse_trusted_proxies_iff}
use rss2msg.Tests.Fixtures.{down}

-- An address is a text without a slash, and a network contains one address.
abbrev parse_ip : Str → Option Str
parse_ip s = if is_empty s || has_byte 47 s then none else some s

abbrev parse_cidr : Str → Result Str
parse_cidr s = if has_byte 47 s then ok s else err down

abbrev no_port : Str → Option Str
no_port s = none

abbrev trusted : Option (List Str)
trusted = some (lit "p" ∷ [])

abbrev from_proxy : Request
from_proxy = record {
  method = lit "GET";
  path = lit "/rss";
  host = lit "h";
  tls = false;
  remote_addr = lit "p";
  header = λ k. [];
  basic_auth = none;
}

proxy_trusted : trusts parse_ip str_eq no_port trusted from_proxy.remote_addr ≡ true
unfolding str_eq has_byte any_contains
proxy_trusted = refl

hop : Memᴰ (lit "c") (split 44 (lit "c"))
unfolding split
hop = Memᴰ.head refl

client : IsClient parse_ip str_eq no_port trusted (lit "c")
unfolding str_eq has_byte trim_space any_contains
client = (refl, refl)

client_ip-spoofed_example :
    client_ip parse_ip str_eq no_port trusted (with_chain (lit "evil" ++ (44 ∷ lit "c")) from_proxy)
    ≡ client_ip parse_ip str_eq no_port trusted (with_chain (lit "c") from_proxy)
client_ip-spoofed_example =
    client_ip-spoofed parse_ip str_eq no_port trusted from_proxy (lit "evil") (lit "c") (lit "c")
      proxy_trusted hop client

slash : (s : Str) → is_ok (parse_cidr s) ≡ true → has_byte 47 s ≡ true
slash s h = elim (Bool-cases (has_byte 47 s)) [ inl e ↦ e | inr e ↦ absurd (cc (rw e at h)) ]

no_slash : (s : Str) → is_none (parse_ip s) ≡ false → has_byte 47 s ≡ false
no_slash [] h = absurd (cc)
no_slash (c ∷ s) h = elim (Bool-cases (has_byte 47 (c ∷ s))) [
  | inr e ↦ e
  | inl e ↦ absurd (cc (rw e at h))
]

abbrev all_parse : List Str → Bool
all_parse [] = true
all_parse (c ∷ cs) = is_ok (parse_cidr c) && all_parse cs

all_parse-All : (cs : List Str) → all_parse cs ≡ true → All (λ c. is_ok (parse_cidr c) ≡ true) cs
all_parse-All [] h = tt
all_parse-All (c ∷ cs) h = elim (Bool-cases (is_ok (parse_cidr c))) [
  | inl e ↦ (e, all_parse-All cs (rw e at h))
  | inr e ↦ absurd (cc (rw e at h))
]

abbrev or_no : Option (List Str) → List Str
or_no none = []
or_no (some cs) = cs

abbrev AllParse : Option (List Str) → Type 0
AllParse none = Unit {0}
AllParse (some cs) = All (λ c. is_ok (parse_cidr c) ≡ true) cs

presets_parse :
    (s : Str) (cidrs : List Str)
    → lookup s preset_cidrs ≡ some cidrs
    → All (λ c. is_ok (parse_cidr c) ≡ true) cidrs
unfolding lookup has_byte str_eq
presets_parse s cidrs h = elim (Bool-cases (str_eq (lit "private") s)) [
  | inl e ↦
      subst AllParse (rw e at h) (all_parse-All (or_no (lookup (lit "private") preset_cidrs)) refl)
  | inr e ↦ elim (Bool-cases (str_eq (lit "all") s)) [
    | inl q ↦
        subst AllParse (rw (e, q) at h)
          (all_parse-All (or_no (lookup (lit "all") preset_cidrs)) refl)
    | inr q ↦ absurd (cc (rw (e, q) at h))
  ]
]

documented : Documented parse_ip parse_cidr
documented = record {
  cidr_slash = slash;
  ip_no_slash = no_slash;
  ip_given = refl;
  presets = presets_parse;
}

parse_trusted_proxies_iff_example :
    (is_ok (parse_trusted_proxies parse_ip parse_cidr (λ ip. ip) (lit "private" ∷ lit "c" ∷ []))
      ≡ true)
    ↔ All
        (λ e. validate_trusted_proxy_entry parse_ip parse_cidr e ≡ none)
        (lit "private" ∷ lit "c" ∷ [])
parse_trusted_proxies_iff_example =
    parse_trusted_proxies_iff parse_ip parse_cidr (λ ip. ip) documented
      (lit "private" ∷ lit "c" ∷ [])
