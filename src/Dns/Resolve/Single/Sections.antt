-- ===== src/Dns/Resolve/Single/Sections.antt =====
-- A whole request in single-lookup mode as its critical sections.
use wadjit.Prelude.{String, ◌≡◌, ◌⊎◌, false, true, non_empty, arith}
use wadjit.Run.{returns}
use wadjit.Dns.Manager.{DnsPolicyManager}
use wadjit.Dns.Lookup.{lookup}
use wadjit.Dns.Lookup.NonEmpty.{lookup-non_empty}
use wadjit.Dns.Resolve.{Moments, Resolved}
use wadjit.Dns.Resolve.Single.{single_cached, single_looked_up, store_single, resolve_single}

-- A request that finds no addresses perhaps stores those that it has looked up, and does nothing else.
pub resolve_single-steps :
    (t : Moments) (host port : String) (m : DnsPolicyManager) (r : Resolved)
    → resolve_single t host port m ≡ returns r
    → (r.manager ≡ m)
      ⊎ (non_empty m.cache.addrs ≡ false)
        × (non_empty (lookup t.wait host m).addrs ≡ true)
        × (r.manager ≡ store_single t (lookup t.wait host m) m)
unfolding resolve_single single_looked_up single_cached
resolve_single-steps t host port m r e = ground (arith, lookup-non_empty t.wait host m)
