-- ===== src/Dns/Resolve/Schedule.antt =====
-- How long the cadence mode serves what it has looked up, and that the single lookup is for good.
use wadjit.Prelude.{
  String, Bool, ◌≡◌, true, false, none, [], arith, pos, ◌≤ℤ◌, ◌<ℤ◌, non_empty, +ℤ_parts,
}
use wadjit.Clock.{Time, add, is_zero}
use wadjit.Run.{returns, Returns, Returns-eq}
use wadjit.Dns.Address.{host_port}
use wadjit.Dns.Manager.{DnsPolicyManager}
use wadjit.Dns.Lookup.{lookup, lookup_effects}
use wadjit.Dns.Lookup.NonEmpty.{lookup-non_empty}
use wadjit.Dns.Resolve.{Moments, Resolved, first}
use wadjit.Dns.Resolve.Single.{resolve_single}
use wadjit.Dns.Resolve.Cadence.{cadence_forced, resolve_cadence}

pub resolve_cadence-asks :
    (t : Moments) (host port : String) (m : DnsPolicyManager)
    → cadence_forced t.now m ≡ true
    → Returns (resolve_cadence t host port m) λ r. r.effects ≡ lookup_effects host m
unfolding resolve_cadence lookup_effects
resolve_cadence-asks t host port m f = ground (arith, lookup-non_empty t.wait host m)

-- The first address of the cache is what was dialled, and the next lookup is due after `e`.
record IsOnCadence (e : Time) (port : String) (r0 : Resolved) : Type 0 where
  no_demand : r0.manager.force_lookup ≡ false
  filled : non_empty r0.manager.cache.addrs ≡ true
  dialled : Returns (first r0.manager.cache.addrs) λ a. r0.outcome.address ≡ host_port a port
  due : r0.manager.cadence_next ≡ e
  set : is_zero e ≡ false

module _ (e : Time) (t : Moments) (host port : String) (r0 : Resolved) where
  IsOnCadence-served :
      (later : DnsPolicyManager)
      → later.cache ≡ r0.manager.cache
      → later.cadence_next ≡ r0.manager.cadence_next
      → later.force_lookup ≡ false
      → IsOnCadence e port r0
      → t.now ≤ℤ e
      → Returns
          (resolve_cadence t host port later)
          λ r. (r.effects ≡ []) × (r.manager ≡ later) × (r.outcome.address ≡ r0.outcome.address)
  unfolding resolve_cadence
  IsOnCadence-served later same planned calm f h = ground arith

  IsOnCadence-due : IsOnCadence e port r0 → e <ℤ t.now → cadence_forced t.now r0.manager ≡ true
  unfolding cadence_forced
  IsOnCadence-due f h = ground (arith, f.no_demand)

resolve_cadence-IsOnCadence :
    (t0 : Moments) (host port : String) (m : DnsPolicyManager)
    → pos 0 <ℤ t0.now
    → pos 0 <ℤ m.policy.cadence
    → cadence_forced t0.now m ≡ true
    → (lookup t0.wait host m).err ≡ none
    → Returns (resolve_cadence t0 host port m) (IsOnCadence (add t0.now m.policy.cadence) port)
unfolding resolve_cadence
resolve_cadence-IsOnCadence t0 host port m p c f e =
    ground (arith, lookup-non_empty t0.wait host m, +ℤ_parts t0.now m.policy.cadence)

module _ (t0 t : Moments) (host port : String) (m : DnsPolicyManager) (r0 : Resolved)
    (real : pos 0 <ℤ t0.now) (positive : pos 0 <ℤ m.policy.cadence)
    (forced : cadence_forced t0.now m ≡ true) (found : (lookup t0.wait host m).err ≡ none)
    (resolved : resolve_cadence t0 host port m ≡ returns r0) where
  on_cadence : IsOnCadence (add t0.now m.policy.cadence) port r0
  on_cadence =
      Returns-eq _ (resolve_cadence t0 host port m) resolved
        (resolve_cadence-IsOnCadence t0 host port m real positive forced found)

  -- In cadence mode with a positive cadence, let a request at `t0` find the cadence over, the cache
  -- empty or a lookup demanded, and let its lookup succeed, with whatever TTL. Up to `t0` and the
  -- cadence a request that finds what was cached and scheduled, whatever else has become of the
  -- manager, and no lookup demanded is served the same address, with no lookup and no change of the
  -- manager.
  pub resolve_cadence-served :
      (later : DnsPolicyManager)
      → later.cache ≡ r0.manager.cache
      → later.cadence_next ≡ r0.manager.cadence_next
      → later.force_lookup ≡ false
      → t.now ≤ℤ add t0.now m.policy.cadence
      → Returns
          (resolve_cadence t host port later)
          λ r. (r.effects ≡ []) × (r.manager ≡ later) × (r.outcome.address ≡ r0.outcome.address)
  resolve_cadence-served later same planned calm h =
      IsOnCadence-served _ t host port r0 later same planned calm on_cadence h

  -- After such a request, each one that is later than `t0` and the cadence waits for a lookup.
  pub resolve_cadence-asks_again :
      add t0.now m.policy.cadence <ℤ t.now
      → Returns
          (resolve_cadence t host port r0.manager)
          λ r. r.effects ≡ lookup_effects host r0.manager
  resolve_cadence-asks_again h =
      resolve_cadence-asks t host port r0.manager (IsOnCadence-due _ t host port r0 on_cadence h)

-- In single-lookup mode, let a request be resolved with no error. From then on every request for its
-- port is resolved to the same address with no lookup and no change, at any time, and also when the
-- guard rail has demanded a lookup.
pub resolve_single-served :
    (t0 t : Moments) (host port : String) (m : DnsPolicyManager) (demanded : Bool) (r0 : Resolved)
    → resolve_single t0 host port m ≡ returns r0
    → r0.err ≡ none
    → Returns (resolve_single t host port (record (r0.manager) { force_lookup = demanded })) λ r.
      (r.effects ≡ [])
      × (r.err ≡ none)
      × (r.manager ≡ record (r0.manager) { force_lookup = demanded })
      × (r.outcome.address ≡ r0.outcome.address)
unfolding resolve_single
resolve_single-served t0 t host port m demanded r0 resolved found =
    ground (arith, lookup-non_empty t0.wait host m)
