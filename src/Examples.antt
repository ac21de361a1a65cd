-- ===== src/Examples.antt =====
-- Concrete managers, resolvers and requests, at which the theorems are applied and the definitions
-- run.
mod Policies
mod Guards
mod Requests
mod Concurrent
mod Resolvers
mod Watchers
mod Sockets
mod Endpoints
mod Managers
mod Responses
mod Pumps
mod Races
mod Answers
mod Composition
use wadjit.Prelude.{ℕ, String, true, false, none, some, List, [], ◌∷◌, ◌==◌, if◌then◌else◌, ℤ, pos}
use wadjit.Clock.{Duration}
use wadjit.GoError.{external}
use wadjit.Run.{Run, returns, panics}
use wadjit.Dns.Address.{v4, unset, AddrPort}
use wadjit.Dns.Policy.{
  DnsRefreshMode, DnsGuardRailAction, force_lookup, TtlResolver, DnsPolicy, DnsGuardRailPolicy,
}
use wadjit.Dns.Manager.{DnsPolicyManager, RequestContext, new_dns_policy_manager}
use wadjit.Dns.Lookup.{flight}
use wadjit.Dns.Guard.{Observation}
use wadjit.Dns.Resolve.{Moments}
use wadjit.Dns.Request.{RequestUrl}

-- At moment 0 the network has an address for 30 nanoseconds, and then it is down.
abbrev network : TtlResolver
network moment host =
    if moment == 0
    then record { addrs = v4 (10 ∷ 0 ∷ 0 ∷ 1 ∷ []) ∷ []; ttl = pos 30; err = none }
    else record { addrs = []; ttl = pos 0; err = some (external 7) }

abbrev address : AddrPort
address = record { addr = v4 (127 ∷ 0 ∷ 0 ∷ 1 ∷ []); port = 8080 }

abbrev policy : DnsRefreshMode → Duration → DnsPolicy
policy mode window = record {
  mode = mode;
  static_addr = address;
  cadence = pos 50;
  ttl_min = pos 5;
  ttl_max = pos 60;
  disable_fallback = false;
  guard_rail = record {
    consecutive_error_threshold = pos 2;
    window = window;
    action = force_lookup;
  };
  resolver = some network;
}

-- A manager in a mode, whose guard rail acts at two failures in a window.
abbrev manager : DnsRefreshMode → Duration → DnsPolicyManager
manager mode window = new_dns_policy_manager network (policy mode window) true

abbrev moments : ℕ → ℕ → Moments
moments now moment = record { now = pos now; looked_up = pos (now); wait = flight moment (pos 3) }

abbrev failure : ℕ → Observation
failure now = record { at = pos now; status = pos 503; result_err = none }

abbrev success : ℕ → Observation
success now = record { at = pos now; status = pos 200; result_err = none }

abbrev url : RequestUrl
url = record { scheme = "https"; hostname = "a.example"; port = "" }

abbrev no_values : RequestContext
no_values = record { plan = none; decision = none }

-- What a call returns.
abbrev result_or {ℓ} : {A : Type ℓ} → A → Run A → A
result_or d (returns a) = a
result_or d panics = d
