-- ===== src/Dns/Resolve/Cadence.antt =====
-- `resolveCadence`: the cache is looked up anew on a fixed cadence, when it is empty, or on demand.
pub mod Sections
use wadjit.Prelude.{
  String, Bool, true, false, not, ◌&&◌, ◌||◌, none, some, [], non_empty, if◌then◌else◌,
}
use wadjit.Clock.{Time, zero_time, is_zero, after, add}
use wadjit.GoError.{GoError}
use wadjit.Run.{Run, returns, ◌>>=◌}
use wadjit.Dns.Address.{host_port}
use wadjit.Dns.Policy.{fallback_enabled}
use wadjit.Dns.Manager.{DnsPolicyManager, empty_outcome, blank_decision}
use wadjit.Dns.Lookup.{LookupReturn, lookup, lookup_effects}
use wadjit.Dns.Resolve.{Moments, Resolved, first, failed_outcome}
use wadjit.Dns.Resolve.Ttl.{clear_force}

unfoldable pub cadence_forced : Time → DnsPolicyManager → Bool
cadence_forced now m =
    m.force_lookup
    || not (non_empty m.cache.addrs)
    || (not (is_zero m.cadence_next) && after now m.cadence_next)

cadence_cached : String → String → DnsPolicyManager → Run Resolved
cadence_cached host port m = do
  a ← first m.cache.addrs
  returns (record {
    manager = m;
    outcome = record empty_outcome {
      address = host_port a port;
      decision = some (record (blank_decision host m.policy.mode) {
        resolved_addrs = m.cache.addrs;
        expires_at = m.cadence_next;
      });
    };
    err = none;
    effects = [];
  })

cadence_failed : String → String → GoError → LookupReturn → DnsPolicyManager → Run Resolved
unfolding failed_outcome fallback_enabled
cadence_failed host port e r m =
    if non_empty m.cache.addrs && fallback_enabled m.policy
    then (do
      a ← first m.cache.addrs
      returns (record {
        manager = m;
        outcome = record {
          address = host_port a port;
          force_new_conn = false;
          decision = some (record (blank_decision host m.policy.mode) {
            resolved_addrs = m.cache.addrs;
            expires_at = m.cadence_next;
            err = some e;
          });
          fallback_err = some e;
        };
        err = none;
        effects = lookup_effects host m;
      }))
    else returns (record {
      manager = m;
      outcome = failed_outcome host m.policy.mode r;
      err = some e;
      effects = lookup_effects host m;
    })

unfoldable pub store_cadence : Time → LookupReturn → DnsPolicyManager → DnsPolicyManager
store_cadence now r m = record m {
  cache = record { addrs = r.addrs; expires_at = zero_time; last_lookup = now };
  cadence_next = add now m.policy.cadence;
}

cadence_stored : Time → String → String → LookupReturn → DnsPolicyManager → Run Resolved
unfolding store_cadence
cadence_stored now host port r m = do
  a ← first r.addrs
  returns (record {
    manager = store_cadence now r m;
    outcome = record {
      address = host_port a port;
      force_new_conn = true;
      decision = some (record (blank_decision host m.policy.mode) {
        resolved_addrs = r.addrs;
        ttl = r.ttl;
        expires_at = add now m.policy.cadence;
        lookup_duration = r.lookup_dur;
      });
      fallback_err = none;
    };
    err = none;
    effects = lookup_effects host m;
  })

cadence_looked_up : Time → String → String → LookupReturn → DnsPolicyManager → Run Resolved
unfolding cadence_failed cadence_stored
cadence_looked_up now host port r m = elim r.err [
  | some e ↦ cadence_failed host port e r m
  | none ↦ cadence_stored now host port r m
]

unfoldable pub resolve_cadence : Moments → String → String → DnsPolicyManager → Run Resolved
unfolding cadence_forced clear_force cadence_cached cadence_looked_up
resolve_cadence t host port m =
    if not (cadence_forced t.now m) && non_empty m.cache.addrs
    then cadence_cached host port (clear_force m)
    else cadence_looked_up t.now host port (lookup t.wait host m) (clear_force m)
