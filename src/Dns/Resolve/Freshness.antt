-- ===== src/Dns/Resolve/Freshness.antt =====
-- How long the TTL and the cadence mode serve what they have looked up.
use wadjit.Prelude.{
  String, ◌≡◌, true, false, none, [], arith, pos, ◌≤ℤ◌, ◌<ℤ◌, leb_ℤ, non_empty, +ℤ_parts,
  if◌then◌else◌,
}
use wadjit.Clock.{Time, Duration, add, is_zero}
use wadjit.Run.{returns, Returns, Returns-eq}
use wadjit.Dns.Policy.{normalize_ttl}
use wadjit.Dns.Manager.{DnsPolicyManager}
use wadjit.Dns.Lookup.{lookup, lookup_effects}
use wadjit.Dns.Lookup.NonEmpty.{lookup-non_empty}
use wadjit.Dns.Address.{host_port}
use wadjit.Dns.Resolve.{Moments, Resolved, first}
use wadjit.Dns.Resolve.Ttl.{ttl_forced, resolve_ttl}

-- The addresses of a lookup that ends at `now` with the normalised TTL `d` are used up to here.
abbrev pub expiry : Time → Duration → Time
expiry now d = if leb_ℤ d (pos 0) then now else add now d

pub resolve_ttl-asks :
    (t : Moments) (host port : String) (m : DnsPolicyManager)
    → ttl_forced t.now m ≡ true
    → Returns (resolve_ttl t host port m) λ r. r.effects ≡ lookup_effects host m
unfolding resolve_ttl lookup_effects
resolve_ttl-asks t host port m f = ground (arith, lookup-non_empty t.wait host m)

-- The first address of the cache is what was dialled, and it expires at `e`.
record IsFresh (e : Time) (port : String) (r0 : Resolved) : Type 0 where
  no_demand : r0.manager.force_lookup ≡ false
  filled : non_empty r0.manager.cache.addrs ≡ true
  dialled : Returns (first r0.manager.cache.addrs) λ a. r0.outcome.address ≡ host_port a port
  expires : r0.manager.cache.expires_at ≡ e
  set : is_zero e ≡ false

module _ (e : Time) (t : Moments) (host port : String) (r0 : Resolved) where
  IsFresh-served :
      (later : DnsPolicyManager)
      → later.cache ≡ r0.manager.cache
      → later.force_lookup ≡ false
      → IsFresh e port r0
      → t.now ≤ℤ e
      → Returns
          (resolve_ttl t host port later)
          λ r. (r.effects ≡ []) × (r.manager ≡ later) × (r.outcome.address ≡ r0.outcome.address)
  unfolding resolve_ttl
  IsFresh-served later same calm f h = ground arith

  IsFresh-expired : IsFresh e port r0 → e <ℤ t.now → ttl_forced t.now r0.manager ≡ true
  unfolding ttl_forced
  IsFresh-expired f h = ground (arith, f.no_demand)

resolve_ttl-IsFresh :
    (t0 : Moments) (host port : String) (m : DnsPolicyManager)
    → pos 0 <ℤ t0.now
    → ttl_forced t0.now m ≡ true
    → (lookup t0.wait host m).err ≡ none
    → Returns
        (resolve_ttl t0 host port m)
        λ r0. IsFresh (expiry t0.now (normalize_ttl m.policy (lookup t0.wait host m).ttl)) port r0
unfolding resolve_ttl
resolve_ttl-IsFresh t0 host port m p f e = ground (
  arith,
  lookup-non_empty t0.wait host m,
  +ℤ_parts t0.now (normalize_ttl m.policy (lookup t0.wait host m).ttl),
)

module _ (t0 t : Moments) (host port : String) (m : DnsPolicyManager) (r0 : Resolved)
    (real : pos 0 <ℤ t0.now) (forced : ttl_forced t0.now m ≡ true)
    (found : (lookup t0.wait host m).err ≡ none)
    (resolved : resolve_ttl t0 host port m ≡ returns r0) where
  fresh : IsFresh (expiry t0.now (normalize_ttl m.policy (lookup t0.wait host m).ttl)) port r0
  fresh =
      Returns-eq _ (resolve_ttl t0 host port m) resolved
        (resolve_ttl-IsFresh t0 host port m real forced found)

  -- In TTL mode, let a request at `t0` find the cache expired, empty or a lookup demanded, and let
  -- its lookup succeed. Up to `t0` and the normalised TTL, if that is positive, and else up to `t0`,
  -- a request that finds what was cached, whatever else has become of the manager, and no lookup
  -- demanded is served the same address, with no lookup and no change of the manager.
  pub resolve_ttl-served :
      (later : DnsPolicyManager)
      → later.cache ≡ r0.manager.cache
      → later.force_lookup ≡ false
      → t.now ≤ℤ expiry t0.now (normalize_ttl m.policy (lookup t0.wait host m).ttl)
      → Returns
          (resolve_ttl t host port later)
          λ r. (r.effects ≡ []) × (r.manager ≡ later) × (r.outcome.address ≡ r0.outcome.address)
  resolve_ttl-served later same calm h = IsFresh-served _ t host port r0 later same calm fresh h

  -- After such a request, each one that is later than `t0` and the normalised TTL, if that is
  -- positive, and else later than `t0`, waits for a lookup.
  pub resolve_ttl-asks_again :
      expiry t0.now (normalize_ttl m.policy (lookup t0.wait host m).ttl) <ℤ t.now
      → Returns (resolve_ttl t host port r0.manager) λ r. r.effects ≡ lookup_effects host r0.manager
  resolve_ttl-asks_again h =
      resolve_ttl-asks t host port r0.manager (IsFresh-expired _ t host port r0 fresh h)
