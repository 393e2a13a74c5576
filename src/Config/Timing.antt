-- ===== src/Config/Timing.antt =====
-- That the intervals which internal/config/validate.go accepts keep leases and members alive, once
-- the coordinator and the ownership provider have put in their defaults.
use rss2msg.Prelude.{
  ◌≡◌, Str, lit, Bool, true, false, ◌||◌, ◌&&◌, not, Option, none, All, arith, str_eq_of_eq,
}
use rss2msg.Prelude.Int.{ℤ, pos, negsuc, ltb_ℤ, leb_ℤ}
use rss2msg.Config.{IsPassed, groups-IsPassed}
use rss2msg.Config.State.{StateConfig}
use rss2msg.Config.Coordination.{
  CoordinationConfig, Checks, when, Url, one_second, below_second, check_coordination,
  coordination_checks, lease_checks, assignment_checks, or_else, is_zero, half_minute, ten_seconds,
}
use rss2msg.Redis.{resolved}
use rss2msg.Ownership.{new_owner_provider}

when-IsPassed : (b : Bool) (cs : Checks) → b ≡ true → All IsPassed (when b cs) → All IsPassed cs
when-IsPassed true cs e h = h
when-IsPassed false cs e h = absurd (cc)

-- A lease that is set lasts a second at least.
lease_long :
    (ttl ri mt : ℤ)
    → below_second ttl ≡ false
    → leb_ℤ one_second (resolved ttl ri mt).lock_ttl ≡ true
unfolding resolved
lease_long (pos n) ri mt h = ground arith
lease_long (negsuc n) ri mt h = ground arith

renewal_positive :
    (ttl ri mt : ℤ)
    → below_second ttl ≡ false
    → ltb_ℤ (pos 0) (resolved ttl ri mt).renewal_interval ≡ true
unfolding resolved
renewal_positive (pos n) (pos m) mt h = ground arith
renewal_positive (pos n) (negsuc m) mt h = ground arith
renewal_positive (negsuc n) (pos m) mt h = ground arith
renewal_positive (negsuc n) (negsuc m) mt h = ground arith

renewal_short :
    (ttl ri mt : ℤ)
    → below_second ttl ≡ false
    → (not (is_zero ri) && leb_ℤ (or_else ttl half_minute) ri) ≡ false
    → ltb_ℤ (resolved ttl ri mt).renewal_interval (resolved ttl ri mt).lock_ttl ≡ true
unfolding resolved
renewal_short (pos n) (pos m) mt h k = ground arith
renewal_short (pos n) (negsuc m) mt h k = ground arith
renewal_short (negsuc n) (pos m) mt h k = ground arith
renewal_short (negsuc n) (negsuc m) mt h k = ground arith

-- An interval of heartbeats is below the time that a member is remembered.
members_outlive :
    (lt ri mt hb : ℤ) (self : Str) (other : Bool)
    → leb_ℤ (or_else mt half_minute) (or_else hb ten_seconds) ≡ false
    → (ltb_ℤ hb (pos 0) || (ltb_ℤ mt (pos 0) || other)) ≡ false
    → ltb_ℤ (new_owner_provider self hb).heartbeat (resolved lt ri mt).member_ttl ≡ true
unfolding resolved new_owner_provider
members_outlive lt ri (pos n) (pos m) self other h k = ground arith
members_outlive lt ri (pos n) (negsuc m) self other h k = ground arith
members_outlive lt ri (negsuc n) (pos m) self other h k = ground arith
members_outlive lt ri (negsuc n) (negsuc m) self other h k = ground arith

module _ (ssl_disabled : Str → Bool) (parse_url : Str → Option Url) (atoi : Str → Option ℤ) where
  -- The settings of Redis that are accepted give a lease of a second at least, extended at intervals
  -- that are positive and shorter than the lease.
  pub accepted-renews :
      (c : CoordinationConfig) (s : StateConfig) (deliver_timeout member_ttl : ℤ)
      → (check_coordination ssl_disabled parse_url atoi c s deliver_timeout).1 ≡ none
      → c.driver ≡ lit "redis"
      → let o = resolved c.redis.lock_ttl c.redis.renewal_interval member_ttl in
        (leb_ℤ one_second o.lock_ttl ≡ true)
        × (ltb_ℤ (pos 0) o.renewal_interval ≡ true)
        × (ltb_ℤ o.renewal_interval o.lock_ttl ≡ true)
  unfolding check_coordination
  accepted-renews c s deliver_timeout member_ttl accepted redis =
      let groups =
        groups-IsPassed (coordination_checks ssl_disabled parse_url atoi c s deliver_timeout)
          accepted in
      let passed : All IsPassed (lease_checks c.redis) =
        when-IsPassed _ (lease_checks c.redis) (str_eq_of_eq c.driver (lit "redis") redis)
          groups.1.1.1.0 in
      let r = c.redis in
      (
        lease_long r.lock_ttl r.renewal_interval member_ttl passed.0,
        renewal_positive r.lock_ttl r.renewal_interval member_ttl passed.0,
        renewal_short r.lock_ttl r.renewal_interval member_ttl passed.0 passed.1.0,
      )

  -- With assignment on, an accepted configuration has instances report themselves more often than
  -- Redis forgets them.
  pub accepted-members :
      (c : CoordinationConfig) (s : StateConfig) (deliver_timeout : ℤ) (self : Str)
      → (check_coordination ssl_disabled parse_url atoi c s deliver_timeout).1 ≡ none
      → c.assignment.enabled ≡ true
      → ltb_ℤ
          (new_owner_provider self c.assignment.heartbeat_interval).heartbeat
          (resolved c.redis.lock_ttl c.redis.renewal_interval c.assignment.member_ttl).member_ttl
        ≡ true
  unfolding check_coordination
  accepted-members c s deliver_timeout self accepted enabled =
      let groups =
        groups-IsPassed (coordination_checks ssl_disabled parse_url atoi c s deliver_timeout)
          accepted in
      let a = c.assignment in
      let passed =
        when-IsPassed a.enabled (assignment_checks c.driver a) enabled groups.1.1.1.1.1.1.1.0 in
      members_outlive c.redis.lock_ttl c.redis.renewal_interval a.member_ttl a.heartbeat_interval
        self (ltb_ℤ a.rebalance_grace (pos 0)) passed.1.1.0 passed.1.0
