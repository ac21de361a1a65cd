-- ===== src/Dns/Resolve/Ttl.antt =====
-- `resolveTTL`: the cache is looked up anew when it expires, when it is empty, or on demand.
pub mod Sections
use wadjit.Prelude.{
  String, Bool, true, false, not, ◌&&◌, ◌||◌, none, some, [], non_empty, if◌then◌else◌, pos, leb_ℤ,
}
use wadjit.Clock.{Time, Duration, is_zero, after, add, sub}
use wadjit.GoError.{GoError}
use wadjit.Run.{Run, returns, ◌>>=◌}
use wadjit.Dns.Address.{host_port}
use wadjit.Dns.Policy.{normalize_ttl, fallback_enabled}
use wadjit.Dns.Manager.{DnsCacheEntry, DnsPolicyManager, empty_outcome, blank_decision}
use wadjit.Dns.Lookup.{LookupReturn, lookup, lookup_effects}
use wadjit.Dns.Resolve.{Moments, Resolved, first, non_negative_duration, failed_outcome}

-- The test of the first critical section, which also takes the demand down.
unfoldable pub ttl_forced : Time → DnsPolicyManager → Bool
ttl_forced now m =
    m.force_lookup
    || not (non_empty m.cache.addrs)
    || (not (is_zero m.cache.expires_at) && after now m.cache.expires_at)

unfoldable pub clear_force : DnsPolicyManager → DnsPolicyManager
clear_force m = record m { force_lookup = false }

cached_ttl : DnsCacheEntry → Duration
unfolding non_negative_duration
cached_ttl cached = non_negative_duration (sub cached.expires_at cached.last_lookup)

ttl_cached : String → String → DnsPolicyManager → Run Resolved
unfolding cached_ttl
ttl_cached host port m = do
  a ← first m.cache.addrs
  returns (record {
    manager = m;
    outcome = record empty_outcome {
      address = host_port a port;
      decision = some (record (blank_decision host m.policy.mode) {
        resolved_addrs = m.cache.addrs;
        ttl = cached_ttl m.cache;
        expires_at = m.cache.expires_at;
      });
    };
    err = none;
    effects = [];
  })

ttl_failed : String → String → GoError → LookupReturn → DnsPolicyManager → Run Resolved
unfolding cached_ttl failed_outcome fallback_enabled
ttl_failed host port e r m =
    if non_empty m.cache.addrs && fallback_enabled m.policy
    then (do
      a ← first m.cache.addrs
      returns (record {
        manager = m;
        outcome = record {
          address = host_port a port;
          force_new_conn = false;
          decision = some (record (blank_decision host m.policy.mode) {
            resolved_addrs = m.cache.addrs;
            ttl = cached_ttl m.cache;
            expires_at = m.cache.expires_at;
            err = some e;
          });
          fallback_err = some e;
        };
        err = none;
        effects = lookup_effects host m;
      }))
    else returns (record {
      manager = m;
      outcome = failed_outcome host m.policy.mode r;
      err = some e;
      effects = lookup_effects host m;
    })

-- The entry that a lookup at `now` leaves, its TTL normalised.
unfoldable pub ttl_entry : Time → Duration → LookupReturn → DnsCacheEntry
ttl_entry now d r = record {
  addrs = r.addrs;
  expires_at = if leb_ℤ d (pos 0) then now else add now d;
  last_lookup = now;
}

unfoldable pub store_ttl : Time → Duration → LookupReturn → DnsPolicyManager → DnsPolicyManager
unfolding ttl_entry
store_ttl now d r m = record m { cache = ttl_entry now d r }

ttl_stored : Time → Duration → String → String → LookupReturn → DnsPolicyManager → Run Resolved
unfolding store_ttl
ttl_stored now d host port r m = do
  a ← first r.addrs
  returns (record {
    manager = store_ttl now d r m;
    outcome = record {
      address = host_port a port;
      force_new_conn = true;
      decision = some (record (blank_decision host m.policy.mode) {
        resolved_addrs = r.addrs;
        ttl = d;
        expires_at = (ttl_entry now d r).expires_at;
        lookup_duration = r.lookup_dur;
      });
      fallback_err = none;
    };
    err = none;
    effects = lookup_effects host m;
  })

ttl_looked_up : Time → String → String → LookupReturn → DnsPolicyManager → Run Resolved
unfolding ttl_failed ttl_stored
ttl_looked_up now host port r m = elim r.err [
  | some e ↦ ttl_failed host port e r m
  | none ↦ ttl_stored now (normalize_ttl m.policy r.ttl) host port r m
]

unfoldable pub resolve_ttl : Moments → String → String → DnsPolicyManager → Run Resolved
unfolding ttl_forced clear_force ttl_cached ttl_looked_up
resolve_ttl t host port m =
    if ttl_forced t.now m
    then ttl_looked_up t.now host port (lookup t.wait host m) (clear_force m)
    else ttl_cached host port (clear_force m)
