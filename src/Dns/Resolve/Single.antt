-- ===== src/Dns/Resolve/Single.antt =====
-- `resolveSingle`: the first lookup's addresses are cached for good.
pub mod Sections
use wadjit.Prelude.{String, true, none, some, [], non_empty, if◌then◌else◌}
use wadjit.Clock.{zero_time}
use wadjit.Run.{Run, returns, ◌>>=◌}
use wadjit.Dns.Address.{host_port}
use wadjit.Dns.Manager.{DnsPolicyManager, empty_outcome, blank_decision}
use wadjit.Dns.Lookup.{LookupReturn, lookup, lookup_effects}
use wadjit.Dns.Resolve.{Moments, Resolved, first, failed_outcome}

single_cached : String → String → DnsPolicyManager → Run Resolved
single_cached host port m = do
  a ← first m.cache.addrs
  returns (record {
    manager = m;
    outcome = record empty_outcome {
      address = host_port a port;
      decision =
          some (record (blank_decision host m.policy.mode) { resolved_addrs = m.cache.addrs });
    };
    err = none;
    effects = [];
  })

unfoldable pub store_single : Moments → LookupReturn → DnsPolicyManager → DnsPolicyManager
store_single t r m = record m {
  cache = record { addrs = r.addrs; expires_at = zero_time; last_lookup = t.looked_up };
}

single_looked_up : Moments → String → String → LookupReturn → DnsPolicyManager → Run Resolved
unfolding failed_outcome store_single
single_looked_up t host port r m = elim r.err [
  | some e ↦ returns (record {
    manager = m;
    outcome = failed_outcome host m.policy.mode r;
    err = some e;
    effects = lookup_effects host m;
  })
  | none ↦ do
    a ← first r.addrs
    returns (record {
      manager = store_single t r m;
      outcome = record {
        address = host_port a port;
        force_new_conn = true;
        decision = some (record (blank_decision host m.policy.mode) {
          resolved_addrs = r.addrs;
          ttl = r.ttl;
          lookup_duration = r.lookup_dur;
        });
        fallback_err = none;
      };
      err = none;
      effects = lookup_effects host m;
    })
]

unfoldable pub resolve_single : Moments → String → String → DnsPolicyManager → Run Resolved
unfolding single_cached single_looked_up
resolve_single t host port m =
    if non_empty m.cache.addrs
    then single_cached host port m
    else single_looked_up t host port (lookup t.wait host m) m
