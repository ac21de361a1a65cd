-- ===== src/Dns/Manager.antt =====
-- The state of `dnsPolicyManager` (dns_policy_manager.go), and the values that pass between its
-- methods and the HTTP transport. A method that mutates the manager returns the new one.
use wadjit.Prelude.{ℕ, String, Bool, false, Option, none, some, List, [], pos}
use wadjit.Clock.{Time, zero_time}
use wadjit.GoError.{GoError}
use wadjit.Dns.Address.{Addr, Target, no_target}
use wadjit.Dns.Policy.{DnsGuardRailPolicy, TtlResolver, DnsPolicy, DnsDecision, DnsRefreshMode}

pub record DnsCacheEntry : Type 0 where
  pub addrs : List Addr
  pub expires_at : Time
  pub last_lookup : Time

pub record GuardRailState : Type 0 where
  pub policy : DnsGuardRailPolicy
  pub count : ℕ
  pub first_failure : Time
  pub last_failure : Time
  pub triggered : Bool

-- `hooked` says whether a decision hook is set: its calls are effects. The mutex and the group of
-- coalesced lookups hold no data of their own.
pub record DnsPolicyManager : Type 0 where
  pub policy : DnsPolicy
  pub resolver : Option TtlResolver
  pub hooked : Bool
  pub cache : DnsCacheEntry
  pub cadence_next : Time
  pub force_lookup : Bool
  pub guard : GuardRailState
  pub last_decision : Option DnsDecision

abbrev pub empty_cache : DnsCacheEntry
empty_cache = record { addrs = []; expires_at = zero_time; last_lookup = zero_time }

abbrev pub or_default {ℓ} : {A : Type ℓ} → Option A → A → A
or_default none d = d
or_default (some a) d = a

-- `default_resolver` is what `newDefaultTTLResolver` builds.
unfoldable pub new_dns_policy_manager : TtlResolver → DnsPolicy → Bool → DnsPolicyManager
new_dns_policy_manager default_resolver policy hooked = record {
  policy = policy;
  resolver = some (or_default policy.resolver default_resolver);
  hooked = hooked;
  cache = empty_cache;
  cadence_next = zero_time;
  force_lookup = false;
  guard = record {
    policy = policy.guard_rail;
    count = 0;
    first_failure = zero_time;
    last_failure = zero_time;
    triggered = false;
  };
  last_decision = none;
}

pub record DnsResolveOutcome : Type 0 where
  pub address : Target
  pub force_new_conn : Bool
  pub decision : Option DnsDecision
  pub fallback_err : Option GoError

abbrev pub empty_outcome : DnsResolveOutcome
empty_outcome = record {
  address = no_target;
  force_new_conn = false;
  decision = none;
  fallback_err = none;
}

-- A `DNSDecision` literal with the host and the mode alone.
abbrev pub blank_decision : String → DnsRefreshMode → DnsDecision
blank_decision host mode = record {
  host = host;
  mode = mode;
  resolved_addrs = [];
  ttl = pos 0;
  expires_at = zero_time;
  lookup_duration = pos 0;
  guard_rail_triggered = false;
  err = none;
  fallback_used = false;
}

-- What the manager reads and adds of a request's context: the values under `dnsPlanKey` and
-- `dnsDecisionKey`.
pub record RequestContext : Type 0 where
  pub plan : Option Target
  pub decision : Option DnsDecision

-- What a method does to the outside, in order.
pub data Effect : Type 0 where
  -- it waits for the coalesced lookup of a host
  awaits_lookup : String → Effect
  -- it calls the decision hook
  calls_hook : RequestContext → DnsDecision → Effect
  -- it calls `transport.CloseIdleConnections()`
  closes_idle : Effect
