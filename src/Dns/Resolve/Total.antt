-- ===== src/Dns/Resolve/Total.antt =====
-- No mode of `resolve` panics: `addrs[0]` is read only of a list that has an element.
use wadjit.Prelude.{String, ◌≢◌, arith}
use wadjit.Run.{panics}
use wadjit.Dns.Policy.{
  DnsRefreshMode, default_mode, static_mode, single_lookup, ttl_mode, cadence_mode, other,
}
use wadjit.Dns.Manager.{DnsPolicyManager}
use wadjit.Dns.Lookup.NonEmpty.{lookup-non_empty}
use wadjit.Dns.Resolve.{Moments}
use wadjit.Dns.Resolve.Single.{resolve_single}
use wadjit.Dns.Resolve.Ttl.{resolve_ttl}
use wadjit.Dns.Resolve.Cadence.{resolve_cadence}
use wadjit.Dns.Resolve.Modes.{resolve, resolve_mode}

module _ (t : Moments) (host port : String) (m : DnsPolicyManager) where
  resolve_single-ne-panics : resolve_single t host port m ≢ panics
  unfolding resolve_single
  resolve_single-ne-panics = ground (arith, lookup-non_empty t.wait host m)

  resolve_ttl-ne-panics : resolve_ttl t host port m ≢ panics
  unfolding resolve_ttl
  resolve_ttl-ne-panics = ground (arith, lookup-non_empty t.wait host m)

  resolve_cadence-ne-panics : resolve_cadence t host port m ≢ panics
  unfolding resolve_cadence
  resolve_cadence-ne-panics = ground (arith, lookup-non_empty t.wait host m)

  resolve_mode-ne-panics : (mode : DnsRefreshMode) → resolve_mode mode t host port m ≢ panics
  unfolding resolve_mode
  resolve_mode-ne-panics default_mode e = cc
  resolve_mode-ne-panics static_mode e = cc
  resolve_mode-ne-panics single_lookup e = resolve_single-ne-panics e
  resolve_mode-ne-panics ttl_mode e = resolve_ttl-ne-panics e
  resolve_mode-ne-panics cadence_mode e = resolve_cadence-ne-panics e
  resolve_mode-ne-panics (other n) e = cc

  -- Whatever the policy, the cache, the clock and the lookup's result, `resolve` does not panic.
  pub resolve-ne-panics : resolve t host port m ≢ panics
  unfolding resolve
  resolve-ne-panics = resolve_mode-ne-panics m.policy.mode
