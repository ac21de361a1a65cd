-- ===== src/Dns/Resolve/Cadence/Sections.antt =====
-- A whole request in cadence mode as its critical sections.
use wadjit.Prelude.{String, ◌≡◌, ◌⊎◌, arith}
use wadjit.Run.{returns}
use wadjit.Dns.Manager.{DnsPolicyManager}
use wadjit.Dns.Lookup.{lookup}
use wadjit.Dns.Resolve.{Moments, Resolved}
use wadjit.Dns.Resolve.Ttl.{clear_force}
use wadjit.Dns.Resolve.Cadence.{
  store_cadence, cadence_looked_up, cadence_failed, cadence_stored, cadence_cached, resolve_cadence,
}

-- A request takes the demand down and then perhaps stores what it has looked up, and nothing else.
pub resolve_cadence-steps :
    (t : Moments) (host port : String) (m : DnsPolicyManager) (r : Resolved)
    → resolve_cadence t host port m ≡ returns r
    → (r.manager ≡ clear_force m)
      ⊎ (r.manager ≡ store_cadence t.now (lookup t.wait host m) (clear_force m))
unfolding resolve_cadence cadence_looked_up cadence_failed cadence_stored cadence_cached clear_force
resolve_cadence-steps t host port m r e = ground arith
