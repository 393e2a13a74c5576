-- ===== src/FeedSink/Proxy.antt =====
-- internal/sink/feed/proxy.go: which peers' forwarding headers are believed, and the address and the
-- URL that follow. The syntax of addresses and networks (package net) is a parameter.
use rss2msg.Prelude.{
  Str, lit, Bool, true, false, Option, none, some, List, [], ◌∷◌, ◌++◌, is_empty, quoted, str_eq,
  ◌==◌, if◌then◌else◌,
}
use rss2msg.Prelude.Bytes.{split, cut, before, to_lower, trim_right_byte, trim_left_byte, has_byte}
use rss2msg.Prelude.Map.{lookup}
use rss2msg.Errors.{Err, other, wrap, Result, ok, err}
use rss2msg.Model.Space.{trim_space}
use rss2msg.Http.{Request}

-- The named sets of networks.
abbrev pub preset_cidrs : List (Str × List Str)
preset_cidrs =
    (
      lit "private",
      lit "10.0.0.0/8"
          ∷ lit "172.16.0.0/12"
          ∷ lit "192.168.0.0/16"
          ∷ lit "127.0.0.0/8"
          ∷ lit "::1/128"
          ∷ lit "fc00::/7"
          ∷ [],
    )
    ∷ (lit "all", lit "0.0.0.0/0" ∷ lit "::/0" ∷ [])
    ∷ []

pub record Forwarded : Type 0 where
  pub proto : Str
  pub host : Str
  pub prefix : Str

-- `firstValue`
unfoldable first_value : Str → Str
unfolding before
first_value h = trim_space (before 44 h)

abbrev with_slash : Str → Str
with_slash [] = []
with_slash (c ∷ p) = if c == 47 then c ∷ p else 47 ∷ c ∷ p

-- `normalizePrefix`
unfoldable normalize_prefix : Str → Str
normalize_prefix p = with_slash (trim_right_byte 47 (trim_space p))

abbrev or_else_str : Str → Str → Str
or_else_str a b = if is_empty a then b else a

abbrev apply_pair : Option (Str × Str) → Forwarded → Forwarded
apply_pair none f = f
apply_pair (some (k, v)) f =
    let w = trim_right_byte 34 (trim_left_byte 34 v) in
    let l = to_lower k in
    if str_eq l (lit "proto")
    then record f { proto = w }
    else if str_eq l (lit "host")
    then record f { host = w }
    else f

-- The loop over the pairs of a Forwarded header.
unfoldable apply_pairs : List Str → Forwarded → Forwarded
apply_pairs [] f = f
apply_pairs (kv ∷ kvs) f = apply_pairs kvs (apply_pair (cut 61 (trim_space kv)) f)

abbrev pub x_forwarded_for : Str
x_forwarded_for = lit "X-Forwarded-For"

abbrev pub nearer : Option Str → Option Str → Option Str
nearer (some ip) hop = some ip
nearer none hop = hop

abbrev leftmost : List Str → Str
leftmost [] = []
leftmost (p ∷ ps) = trim_space p

abbrev or_leftmost : Option Str → List Str → Str
or_leftmost none parts = leftmost parts
or_leftmost (some ip) parts = ip

abbrev no_forwarded : Forwarded
no_forwarded = record { proto = []; host = []; prefix = [] }

abbrev x_forwarded : Request → Forwarded
x_forwarded r = record {
  proto = first_value (r.header (lit "X-Forwarded-Proto"));
  host = first_value (r.header (lit "X-Forwarded-Host"));
  prefix = [];
}

abbrev scheme : Bool → Str
scheme true = lit "https"
scheme false = lit "http"

module _ {Ip Network : Type 0} (parse_ip : Str → Option Ip) (contains : Network → Ip → Bool) where
  -- `contains` of the set of trusted networks; `none` is the nil set.
  unfoldable pub any_contains : Ip → List Network → Bool
  any_contains ip [] = false
  any_contains ip (n ∷ ns) = let rest = any_contains ip ns in if contains n ip then true else rest

  abbrev pub trusted_ip : Option (List Network) → Option Ip → Bool
  trusted_ip none ip = false
  trusted_ip (some ns) none = false
  trusted_ip (some ns) (some ip) = any_contains ip ns

  -- One step of the walk: the address where it is the client's.
  abbrev pub client_hop : Option (List Network) → Str → Option Str
  client_hop trusted part =
      let ip = trim_space part in
      if is_empty ip then none else if trusted_ip trusted (parse_ip ip) then none else some ip

  -- The walk from the right.
  unfoldable pub walk : Option (List Network) → List Str → Option Str
  walk trusted [] = none
  walk trusted (p ∷ ps) = nearer (walk trusted ps) (client_hop trusted p)

  -- The host of a "host:port", `none` where it is not of this form.
  module _ (split_host_port : Str → Option Str) where
    abbrev host_of : Str → Str
    host_of remote_addr = elim (split_host_port remote_addr) [
      | none ↦ remote_addr
      | some host ↦ host
    ]

    -- `trusts`
    abbrev pub trusts : Option (List Network) → Str → Bool
    trusts none remote_addr = false
    trusts (some ns) remote_addr = trusted_ip (some ns) (parse_ip (host_of remote_addr))

    -- `peerIP`
    abbrev pub peer_ip : Request → Str
    peer_ip r = host_of r.remote_addr

    unfoldable pub client_ip : Option (List Network) → Request → Str
    unfolding walk split
    client_ip trusted r =
        let xff = r.header x_forwarded_for in
        let parts = split 44 xff in
        if trusts trusted r.remote_addr
        then (if is_empty xff then peer_ip r else or_leftmost (walk trusted parts) parts)
        else peer_ip r

    -- `parseForwarded`
    unfoldable pub parse_forwarded : Option (List Network) → Request → Forwarded
    unfolding apply_pairs first_value split normalize_prefix
    parse_forwarded trusted r =
        let fwd = r.header (lit "Forwarded") in
        let f =
          if is_empty fwd
          then x_forwarded r
          else apply_pairs (split 59 (first_value fwd)) (x_forwarded r) in
        let pfx = first_value (r.header (lit "X-Forwarded-Prefix")) in
        if trusts trusted r.remote_addr
        then (if is_empty pfx then f else record f { prefix = normalize_prefix pfx })
        else no_forwarded

    -- `selfURL`; public_url and link come without a slash at the end.
    unfoldable pub self_url : Str → Str → Option (List Network) → Request → Str → Str
    unfolding parse_forwarded
    self_url public_url link trusted r surface_path =
        let fw = parse_forwarded trusted r in
        let host = or_else_str fw.host r.host in
        let prefix = if is_empty fw.host then [] else fw.prefix in
        let proto = or_else_str fw.proto (scheme r.tls) in
        if is_empty public_url
        then (if is_empty host
            then (if is_empty link then surface_path else link ++ surface_path)
            else proto ++ (lit "://" ++ (host ++ (prefix ++ surface_path))))
        else public_url ++ surface_path

-- `parseTrustedProxies`
module _ {Ip Network : Type 0} (parse_ip : Str → Option Ip) (parse_cidr : Str → Result Network)
    (single : Ip → Network) where
  abbrev also : Network → Result (List Network) → Result (List Network)
  also n (ok ns) = ok (n ∷ ns)
  also n (err e) = err e

  abbrev pub add : (Err → Err) → Result Network → Result (List Network) → Result (List Network)
  add context (ok n) rest = also n rest
  add context (err e) rest = err (context e)

  unfoldable pub add_preset : Str → List Str → Result (List Network) → Result (List Network)
  add_preset e [] rest = rest
  add_preset e (c ∷ cs) rest =
      add (wrap (lit "preset " ++ (quoted e ++ lit ": "))) (parse_cidr c) (add_preset e cs rest)

  abbrev pub add_ip : Str → Option Ip → Result (List Network) → Result (List Network)
  add_ip e none rest = err (other (lit "entry " ++ (quoted e ++ lit ": not a preset, CIDR, or IP")))
  add_ip e (some ip) rest = also (single ip) rest

  abbrev pub add_entry : Str → Option (List Str) → Result (List Network) → Result (List Network)
  add_entry e (some cidrs) rest = add_preset e cidrs rest
  add_entry e none rest =
      if has_byte 47 e
      then add (wrap (lit "cidr " ++ (quoted e ++ lit ": "))) (parse_cidr e) rest
      else add_ip e (parse_ip e) rest

  unfoldable pub add_entries : List Str → Result (List Network)
  unfolding add_preset
  add_entries [] = ok []
  add_entries (raw ∷ es) =
      let e = trim_space raw in
      let rest = add_entries es in add_entry e (lookup (to_lower e) preset_cidrs) rest

  abbrev pub to_set : Result (List Network) → Result (Option (List Network))
  to_set (ok ns) = ok (some ns)
  to_set (err e) = err e

  unfoldable pub parse_trusted_proxies : List Str → Result (Option (List Network))
  unfolding add_entries
  parse_trusted_proxies [] = ok none
  parse_trusted_proxies (e ∷ es) = to_set (add_entries (e ∷ es))
