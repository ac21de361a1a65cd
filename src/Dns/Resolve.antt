-- ===== src/Dns/Resolve.antt =====
-- `resolve` of dns_policy_manager.go says which address a request is to dial: what its modes share.
-- The mutex is held for the reads and writes of the state, and not over the lookup: the critical
-- sections before and after it are functions of their own. The children have the modes, `Modes` the
-- method itself, and the other children the proofs.
pub mod Single
pub mod Ttl
pub mod Cadence
pub mod Modes
pub mod Total
pub mod Freshness
pub mod Demand
pub mod Address
pub mod Schedule
use wadjit.Prelude.{
  ℕ, String, Bool, true, false, not, ◌&&◌, ◌||◌, Option, none, some, List, [], ◌∷◌, non_empty,
  if◌then◌else◌, pos, ltb_ℤ, leb_ℤ,
}
use wadjit.Clock.{Time, Duration, zero_time, is_zero, after, add, sub}
use wadjit.GoError.{GoError, message, invalid_dns_policy, join}
use wadjit.Run.{Run, returns, panics, ◌>>=◌}
use wadjit.Dns.Address.{Addr, host_port, addr_port, is_empty}
use wadjit.Dns.Policy.{
  DnsRefreshMode, default_mode, static_mode, single_lookup, ttl_mode, cadence_mode, other,
  normalize_ttl, fallback_enabled,
}
use wadjit.Dns.Manager.{
  DnsCacheEntry, DnsPolicyManager, DnsResolveOutcome, Effect, empty_outcome, blank_decision,
}
use wadjit.Dns.Lookup.{Wait, LookupReturn, lookup, lookup_effects}

-- What a call of `resolve` meets: the clock when it starts and when its lookup has returned, and
-- what the lookup waits for.
pub record Moments : Type 0 where
  pub now : Time
  pub looked_up : Time
  pub wait : Wait

pub record Resolved : Type 0 where
  pub manager : DnsPolicyManager
  pub outcome : DnsResolveOutcome
  pub err : Option GoError
  pub effects : List Effect

-- `addrs[0]`
abbrev pub first : List Addr → Run Addr
first [] = panics
first (a ∷ addrs) = returns a

unfoldable pub non_negative_duration : Duration → Duration
non_negative_duration d = if ltb_ℤ d (pos 0) then pos 0 else d

-- A lookup has failed and there is no address: the decision is kept for observability.
unfoldable pub failed_outcome : String → DnsRefreshMode → LookupReturn → DnsResolveOutcome
failed_outcome host mode r = record empty_outcome {
  decision =
      some (record (blank_decision host mode) { lookup_duration = r.lookup_dur; err = r.err });
}
