-- ===== src/Dns/Resolve/Address.antt =====
-- The address that each mode resolves to.
use wadjit.Prelude.{String, Bool, ◌≡◌, true, false, none, arith}
use wadjit.Run.{returns, Returns}
use wadjit.Dns.Address.{host_port}
use wadjit.Dns.Policy.{
  DnsRefreshMode, default_mode, static_mode, single_lookup, ttl_mode, cadence_mode, other,
}
use wadjit.Dns.Manager.{DnsPolicyManager}
use wadjit.Dns.Lookup.NonEmpty.{lookup-non_empty}
use wadjit.Dns.Resolve.{Moments, Resolved, first}
use wadjit.Dns.Resolve.Single.{resolve_single}
use wadjit.Dns.Resolve.Ttl.{resolve_ttl}
use wadjit.Dns.Resolve.Cadence.{resolve_cadence}
use wadjit.Dns.Resolve.Modes.{resolve, resolve_mode}

-- The modes that look addresses up and keep them.
abbrev pub caches : DnsRefreshMode → Bool
caches default_mode = false
caches static_mode = false
caches single_lookup = true
caches ttl_mode = true
caches cadence_mode = true
caches (other n) = false

-- The resolved address is the first of the cache as the request leaves it.
abbrev pub FromCache : String → Resolved → Type 0
FromCache port r = Returns (first r.manager.cache.addrs) λ a. r.outcome.address ≡ host_port a port

module _ (t : Moments) (host port : String) (m : DnsPolicyManager) (r : Resolved) where
  resolve_single-FromCache :
      resolve_single t host port m ≡ returns r → r.err ≡ none → FromCache port r
  unfolding resolve_single
  resolve_single-FromCache h e = ground (arith, lookup-non_empty t.wait host m)

  resolve_ttl-FromCache : resolve_ttl t host port m ≡ returns r → r.err ≡ none → FromCache port r
  unfolding resolve_ttl
  resolve_ttl-FromCache h e = ground (arith, lookup-non_empty t.wait host m)

  resolve_cadence-FromCache :
      resolve_cadence t host port m ≡ returns r → r.err ≡ none → FromCache port r
  unfolding resolve_cadence
  resolve_cadence-FromCache h e = ground (arith, lookup-non_empty t.wait host m)

  resolve_mode-FromCache :
      (mode : DnsRefreshMode)
      → caches mode ≡ true
      → resolve_mode mode t host port m ≡ returns r
      → r.err ≡ none
      → FromCache port r
  unfolding resolve_mode
  resolve_mode-FromCache single_lookup c h e = resolve_single-FromCache h e
  resolve_mode-FromCache ttl_mode c h e = resolve_ttl-FromCache h e
  resolve_mode-FromCache cadence_mode c h e = resolve_cadence-FromCache h e
  resolve_mode-FromCache _ c h e = cc

  pub resolve-FromCache :
      caches m.policy.mode ≡ true
      → resolve t host port m ≡ returns r
      → r.err ≡ none
      → FromCache port r
  unfolding resolve
  resolve-FromCache = resolve_mode-FromCache m.policy.mode
