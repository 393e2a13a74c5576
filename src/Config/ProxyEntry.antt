-- ===== src/Config/ProxyEntry.antt =====
-- validateTrustedProxyEntry in internal/config/validate.go. What package net makes of an address is a
-- parameter.
use rss2msg.Prelude.{
  Str, lit, Bool, true, false, ◌||◌, Option, none, some, is_empty, is_none, str_eq, if◌then◌else◌,
}
use rss2msg.Prelude.Bytes.{to_lower}
use rss2msg.Errors.{Result, ok, err}
use rss2msg.Model.Space.{trim_space}

pub data EntryFault : Type 0 where
  empty_entry unknown_entry : EntryFault

abbrev pub is_ok {ℓ} : {A : Type ℓ} → Result A → Bool
is_ok (ok a) = true
is_ok (err e) = false

module _ {Ip Network : Type 0} (parse_ip : Str → Option Ip)
    (parse_cidr : Str → Result Network) where
  unfoldable pub validate_trusted_proxy_entry : Str → Option EntryFault
  validate_trusted_proxy_entry raw =
      let e = trim_space raw in
      let l = to_lower e in
      if is_empty l
      then some empty_entry
      else if str_eq (lit "private") l || str_eq (lit "all") l
      then none
      else if is_ok (parse_cidr e)
      then none
      else if is_none (parse_ip e)
      then some unknown_entry
      else none
