-- ===== src/Dns/Policy.antt =====
-- dns_policy.go: the refresh modes, the guard rail's settings, and the policy of an endpoint.
pub mod Validation
pub mod Ttl
use wadjit.Prelude.{
  ℕ, String, Bool, true, false, not, ◌&&◌, Option, none, some, List, if◌then◌else◌, ℤ, pos, ltb_ℤ,
  leb_ℤ,
}
use wadjit.Clock.{Time, Duration}
use wadjit.GoError.{GoError, message, invalid_dns_policy, join}
use wadjit.Dns.Address.{Addr, AddrPort, is_empty}

-- `other` is a value of the `uint8` that has no name.
pub data DnsRefreshMode : Type 0 where
  default_mode static_mode single_lookup ttl_mode cadence_mode : DnsRefreshMode
  other : ℕ → DnsRefreshMode

pub data DnsGuardRailAction : Type 0 where
  no_action flush force_lookup : DnsGuardRailAction
  other_action : ℕ → DnsGuardRailAction

pub record DnsGuardRailPolicy : Type 0 where
  pub consecutive_error_threshold : ℤ
  pub window : Duration
  pub action : DnsGuardRailAction

abbrev pub acts : DnsGuardRailAction → Bool
acts no_action = false
acts flush = true
acts force_lookup = true
acts (other_action n) = true

unfoldable pub enabled : DnsGuardRailPolicy → Bool
enabled p = ltb_ℤ (pos 0) p.consecutive_error_threshold && acts p.action

-- What a resolver returns: its addresses, their TTL, and an error that may be nil.
pub record ResolverAnswer : Type 0 where
  pub addrs : List Addr
  pub ttl : Duration
  pub err : Option GoError

-- A resolver answers at a moment of its environment, which a number names: the network, and a
-- resolver that the user supplies, may answer each call otherwise.
abbrev pub TtlResolver : Type 0
TtlResolver = ℕ → String → ResolverAnswer

pub record DnsPolicy : Type 0 where
  pub mode : DnsRefreshMode
  pub static_addr : AddrPort
  pub cadence : Duration
  pub ttl_min : Duration
  pub ttl_max : Duration
  pub disable_fallback : Bool
  pub guard_rail : DnsGuardRailPolicy
  pub resolver : Option TtlResolver

pub record DnsDecision : Type 0 where
  pub host : String
  pub mode : DnsRefreshMode
  pub resolved_addrs : List Addr
  pub ttl : Duration
  pub expires_at : Time
  pub lookup_duration : Duration
  pub guard_rail_triggered : Bool
  pub err : Option GoError
  pub fallback_used : Bool

abbrev invalid : String → Option GoError
invalid reason = join (some invalid_dns_policy) (some (message reason))

validate_mode : DnsRefreshMode → DnsPolicy → Option GoError
unfolding is_empty
validate_mode default_mode p = none
validate_mode single_lookup p = none
validate_mode static_mode p =
    if is_empty p.static_addr then invalid "static mode requires StaticAddr" else none
validate_mode ttl_mode p =
    if ltb_ℤ (pos 0) p.ttl_max && ltb_ℤ p.ttl_max p.ttl_min
    then invalid "TTLMin must be <= TTLMax"
    else none
validate_mode cadence_mode p =
    if leb_ℤ p.cadence (pos 0) then invalid "cadence mode requires positive Cadence" else none
validate_mode (other n) p = invalid "unknown DNS refresh mode"

unfoldable pub validate : DnsPolicy → Option GoError
unfolding validate_mode
validate p = validate_mode p.mode p

unfoldable pub normalize_ttl : DnsPolicy → Duration → Duration
normalize_ttl p ttl =
    if leb_ℤ ttl (pos 0)
    then p.ttl_min
    else if ltb_ℤ (pos 0) p.ttl_min && ltb_ℤ ttl p.ttl_min
    then p.ttl_min
    else if ltb_ℤ (pos 0) p.ttl_max && ltb_ℤ p.ttl_max ttl
    then p.ttl_max
    else ttl

unfoldable pub fallback_enabled : DnsPolicy → Bool
fallback_enabled p = not p.disable_fallback
