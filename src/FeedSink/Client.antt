-- ===== src/FeedSink/Client.antt =====
-- What the senders of a request can make internal/sink/feed/proxy.go believe.
use rss2msg.Prelude.{
  ◌≡◌, refl, sym, ap, ◌∙◌, Str, Bool, true, false, Option, none, some, List, [], ◌∷◌, ◌++◌, Memᴰ,
  is_empty, str_eq, str_eq_refl, if◌then◌else◌, Option-cases, inl, inr,
}
use rss2msg.Prelude.Bytes.{split, split-append}
use rss2msg.Model.Space.{trim_space}
use rss2msg.Http.{Request}
use rss2msg.FeedSink.Proxy.{
  x_forwarded_for, trusted_ip, trusts, client_hop, nearer, walk, client_ip, parse_forwarded,
  self_url,
}

-- A request with other headers.
abbrev pub with_headers : (Str → Str) → Request → Request
with_headers h r = record r { header = h }

-- A request with another X-Forwarded-For.
abbrev pub with_chain : Str → Request → Request
with_chain chain r = record r {
  header = λ k. if str_eq k x_forwarded_for then chain else r.header k;
}

module _ {Ip Network : Type 0} (parse_ip : Str → Option Ip) (contains : Network → Ip → Bool)
    (split_host_port : Str → Option Str) (trusted : Option (List Network)) where
  -- A peer that is not trusted has no say in its address or in the URL: the headers that it sends
  -- change neither.
  headers_ignored :
      (r : Request) (h : Str → Str) (public_url link path : Str)
      → trusts parse_ip contains split_host_port trusted r.remote_addr ≡ false
      → (client_ip parse_ip contains split_host_port trusted (with_headers h r)
          ≡ client_ip parse_ip contains split_host_port trusted r)
        × (self_url parse_ip contains split_host_port public_url link trusted
              (with_headers h r)
              path
            ≡ self_url parse_ip contains split_host_port public_url link trusted r path)
  unfolding client_ip self_url parse_forwarded
  headers_ignored r h public_url link path untrusted = rw untrusted (refl, refl)

  nearer_assoc : (a b c : Option Str) → nearer (nearer a b) c ≡ nearer a (nearer b c)
  nearer_assoc none b c = refl
  nearer_assoc (some x) b c = refl

  walk-append :
      (ps qs : List Str)
      → walk parse_ip contains trusted (ps ++ qs)
        ≡ nearer (walk parse_ip contains trusted qs) (walk parse_ip contains trusted ps)
  unfolding walk
  walk-append [] qs = elim (Option-cases (walk parse_ip contains trusted qs)) [
    | inl e ↦ rw e refl
    | inr (a, e) ↦ rw e refl
  ]
  walk-append (p ∷ ps) qs =
      ap (λ o. nearer o (client_hop parse_ip contains trusted p)) (walk-append ps qs)
      ∙ nearer_assoc (walk parse_ip contains trusted qs) (walk parse_ip contains trusted ps)
          (client_hop parse_ip contains trusted p)

  -- An entry of a chain that is not a trusted proxy's.
  abbrev pub IsClient : Str → Type 0
  IsClient part =
      (is_empty (trim_space part) ≡ false)
      × (trusted_ip parse_ip contains trusted (parse_ip (trim_space part)) ≡ false)

  walk-IsClient :
      (part : Str) (ps : List Str)
      → Memᴰ part ps
      → IsClient part
      → (ip : Str) × (walk parse_ip contains trusted ps ≡ some ip)
  unfolding walk
  walk-IsClient part [] m h = elim m [ ]
  walk-IsClient part (p ∷ ps) (Memᴰ.head e) h =
      elim (Option-cases (walk parse_ip contains trusted ps)) [
        | inl q ↦ (trim_space part, rw (← e) (rw (q, h.0, h.1) refl))
        | inr (ip, q) ↦ (ip, rw q refl)
      ]
  walk-IsClient part (p ∷ ps) (Memᴰ.tail m) h =
      let (ip, q) = walk-IsClient part ps m h in (ip, rw q refl)

  chain_given :
      (part chain : Str) → Memᴰ part (split 44 chain) → IsClient part → is_empty chain ≡ false
  unfolding split trim_space
  chain_given part [] (Memᴰ.head e) h = absurd (cc (rw e at h.0))
  chain_given part [] (Memᴰ.tail m) h = elim m [ ]
  chain_given part (c ∷ chain) m h = refl

  client_ip-found :
      (r : Request) (chain ip : Str)
      → trusts parse_ip contains split_host_port trusted r.remote_addr ≡ true
      → is_empty chain ≡ false
      → walk parse_ip contains trusted (split 44 chain) ≡ some ip
      → client_ip parse_ip contains split_host_port trusted (with_chain chain r) ≡ ip
  unfolding client_ip
  client_ip-found r chain ip t e w = rw (t, str_eq_refl x_forwarded_for, e, w) refl

  append-given : (s t : Str) → is_empty (s ++ (44 ∷ t)) ≡ false
  append-given [] t = refl
  append-given (c ∷ s) t = refl

  -- What a client writes into X-Forwarded-For itself does not count: where trusted proxies have
  -- appended a chain of entries, one of which is not a trusted proxy's, the address is the one that
  -- the chain alone gives.
  pub client_ip-spoofed :
      (r : Request) (spoofed chain part : Str)
      → trusts parse_ip contains split_host_port trusted r.remote_addr ≡ true
      → Memᴰ part (split 44 chain)
      → IsClient part
      → client_ip parse_ip contains split_host_port trusted (with_chain (spoofed ++ (44 ∷ chain)) r)
        ≡ client_ip parse_ip contains split_host_port trusted (with_chain chain r)
  unfolding client_ip
  client_ip-spoofed r spoofed chain part t m h =
      let (ip, found) = walk-IsClient part (split 44 chain) m h in
      let whole : walk parse_ip contains trusted (split 44 (spoofed ++ (44 ∷ chain))) ≡ some ip =
        ap (walk parse_ip contains trusted) (split-append 44 spoofed chain)
        ∙ walk-append (split 44 spoofed) (split 44 chain)
        ∙ rw found refl in
      client_ip-found r (spoofed ++ (44 ∷ chain)) ip t (append-given spoofed chain) whole
      ∙ sym (client_ip-found r chain ip t (chain_given part chain m h) found)
