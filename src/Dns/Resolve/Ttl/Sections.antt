-- ===== src/Dns/Resolve/Ttl/Sections.antt =====
-- A whole request in TTL mode as its two critical sections.
use wadjit.Prelude.{String, ◌≡◌, ◌⊎◌, arith}
use wadjit.Run.{returns}
use wadjit.Dns.Policy.{normalize_ttl}
use wadjit.Dns.Manager.{DnsPolicyManager}
use wadjit.Dns.Lookup.{lookup}
use wadjit.Dns.Resolve.{Moments, Resolved}
use wadjit.Dns.Resolve.Ttl.{
  clear_force, store_ttl, ttl_looked_up, ttl_failed, ttl_stored, ttl_cached, resolve_ttl,
}

-- A request takes the demand down and then perhaps stores what it has looked up, and nothing else.
pub resolve_ttl-steps :
    (t : Moments) (host port : String) (m : DnsPolicyManager) (r : Resolved)
    → resolve_ttl t host port m ≡ returns r
    → (r.manager ≡ clear_force m)
      ⊎ (r.manager
          ≡ store_ttl t.now
              (normalize_ttl m.policy (lookup t.wait host m).ttl)
              (lookup t.wait host m)
              (clear_force m))
unfolding resolve_ttl ttl_looked_up ttl_failed ttl_stored ttl_cached clear_force
resolve_ttl-steps t host port m r e = ground arith
