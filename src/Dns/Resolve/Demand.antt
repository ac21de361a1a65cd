-- ===== src/Dns/Resolve/Demand.antt =====
-- A demanded lookup is made by the next request, however fresh the cache is.
use wadjit.Prelude.{String, ◌≡◌, true, false, List, arith}
use wadjit.Run.{Returns}
use wadjit.Dns.Policy.{force_lookup}
use wadjit.Dns.Manager.{DnsPolicyManager}
use wadjit.Dns.Lookup.{lookup_effects}
use wadjit.Dns.Guard.{Observation, observe_all}
use wadjit.Dns.Guard.Demand.{triggered-force_lookup}
use wadjit.Dns.Resolve.{Moments}
use wadjit.Dns.Resolve.Ttl.{ttl_forced, resolve_ttl}
use wadjit.Dns.Resolve.Cadence.{cadence_forced, resolve_cadence}
use wadjit.Dns.Resolve.Freshness.{resolve_ttl-asks}
use wadjit.Dns.Resolve.Schedule.{resolve_cadence-asks}

demand-ttl_forced :
    (t : Moments) (m : DnsPolicyManager) → m.force_lookup ≡ true → ttl_forced t.now m ≡ true
unfolding ttl_forced
demand-ttl_forced t m f = ground arith

demand-cadence_forced :
    (t : Moments) (m : DnsPolicyManager) → m.force_lookup ≡ true → cadence_forced t.now m ≡ true
unfolding cadence_forced
demand-cadence_forced t m f = ground arith

-- Let the guard rail's action be to force a lookup, and let the results `os` raise its trigger, which
-- was down. Then a request that follows waits for a lookup, in TTL mode and in cadence mode, at any
-- time and whatever the cache holds.
pub triggered-asks :
    (os : List Observation) (m : DnsPolicyManager) (t : Moments) (host port : String)
    → m.guard.policy.action ≡ force_lookup
    → m.guard.triggered ≡ false
    → (observe_all os m).guard.triggered ≡ true
    → (Returns
        (resolve_ttl t host port (observe_all os m))
        λ r. r.effects ≡ lookup_effects host (observe_all os m))
      × (Returns
          (resolve_cadence t host port (observe_all os m))
          λ r. r.effects ≡ lookup_effects host (observe_all os m))
triggered-asks os m t host port a u h =
    let f = triggered-force_lookup os m a u h in
    (
      resolve_ttl-asks t host port (observe_all os m) (demand-ttl_forced t (observe_all os m) f),
      resolve_cadence-asks t host port (observe_all os m)
          (demand-cadence_forced t (observe_all os m) f),
    )
