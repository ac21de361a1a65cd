-- ===== src/Dns/Interleaving/Cadence.antt =====
-- Concurrent requests in cadence mode: how stale the addresses are that a request gets with no lookup.
use wadjit.Prelude.{
  List, ◌∷◌, String, Bool, ◌≡◌, refl, true, false, none, [], arith, pos, ◌<ℤ◌, +ℤ_parts, is_some,
  Bool-cases, inl, inr,
}
use wadjit.Clock.{Time}
use wadjit.GoError.{join}
use wadjit.Run.{returns, Returns-eq}
use wadjit.Dns.Policy.{DnsPolicy, TtlResolver, cadence_mode, validate}
use wadjit.Dns.Manager.{DnsCacheEntry, DnsPolicyManager, new_dns_policy_manager}
use wadjit.Dns.Lookup.{LookupReturn, lookup, lookup_effects}
use wadjit.Dns.Resolve.{Moments, Resolved}
use wadjit.Dns.Resolve.Ttl.{clear_force}
use wadjit.Dns.Resolve.Cadence.{cadence_forced, store_cadence, resolve_cadence}
use wadjit.Dns.Resolve.Cadence.Sections.{resolve_cadence-steps}
use wadjit.Dns.Resolve.Schedule.{resolve_cadence-asks}
use wadjit.Dns.Interleaving.{
  Entry, Reach, IsTimely, Serves, here, next, looks, stores, new-IsTimely, Reach-IsTimely,
}

abbrev schedule_of : DnsCacheEntry → Time → Time
schedule_of c scheduled = scheduled

module _ (p : DnsPolicy) (mode : p.mode ≡ cadence_mode) (valid : validate p ≡ none) where
  positive : pos 0 <ℤ p.cadence
  unfolding validate join
  positive = ground arith

  stored-IsTimely :
      (l : List Entry) (m : DnsPolicyManager) (now : Time) (r : LookupReturn)
      → pos 0 <ℤ now
      → IsTimely p schedule_of p.cadence l m
      → IsTimely p schedule_of p.cadence ((now, r) ∷ l) (store_cadence now r m)
  unfolding store_cadence
  stored-IsTimely l m now r h i = rw i.same (record {
    same = refl;
    asks = i.asks;
    caches = refl;
    lapses = ground (arith, positive, +ℤ_parts now p.cadence);
  })

  not_forced :
      (t : Moments) (host port : String) (m : DnsPolicyManager) (r : Resolved)
      → is_some m.resolver ≡ true
      → resolve_cadence t host port m ≡ returns r
      → r.effects ≡ []
      → cadence_forced t.now m ≡ false
  unfolding lookup_effects
  not_forced t host port m r s e q = elim (Bool-cases (cadence_forced t.now m)) [
    | inr no_force ↦ no_force
    | inl forced ↦
        absurd (ground (arith, Returns-eq _ _ e (resolve_cadence-asks t host port m forced)))
  ]

  not_forced-Serves :
      (t : Moments) (host port : String) (l : List Entry) (m : DnsPolicyManager) (r : Resolved)
      → cadence_forced t.now m ≡ false
      → resolve_cadence t host port m ≡ returns r
      → IsTimely p schedule_of p.cadence l m
      → Serves p.cadence l t.now port r
  unfolding cadence_forced resolve_cadence
  not_forced-Serves t host port [] m r f e i = ground (arith, i.caches)
  not_forced-Serves t host port ((began, found) ∷ l) m r f e i =
      ground (arith, i.caches, i.lapses, +ℤ_parts began p.cadence)

  -- Let the policy be a valid cadence policy. However the critical sections of concurrent requests
  -- and observations are interleaved from a new manager on, with a clock after zero: a request that
  -- is served with no lookup dials the first of the addresses that were stored last, with no error,
  -- and is no later than the cadence after the request began that stored them.
  pub Reach-resolve_cadence :
      (resolver : TtlResolver) (hooked : Bool) (l : List Entry) (m : DnsPolicyManager) (t : Moments)
      (host port : String) (r : Resolved)
      → Reach store_cadence (new_dns_policy_manager resolver p hooked) l m
      → resolve_cadence t host port m ≡ returns r
      → r.effects ≡ []
      → Serves p.cadence l t.now port r
  Reach-resolve_cadence resolver hooked l m t host port r reached e served =
      let timely =
        Reach-IsTimely p schedule_of p.cadence store_cadence stored-IsTimely _ l m reached
          (new-IsTimely p schedule_of p.cadence resolver hooked) in
      not_forced-Serves t host port l m r (not_forced t host port m r timely.asks e served) e timely

-- What a whole request does to the manager is one or two of these steps.
resolve_cadence-Reach :
    (t : Moments) (host port : String) (m : DnsPolicyManager) (r : Resolved)
    → pos 0 <ℤ t.now
    → resolve_cadence t host port m ≡ returns r
    → (l : List Entry) × Reach store_cadence m l r.manager
unfolding clear_force
resolve_cadence-Reach t host port m r h e = elim (resolve_cadence-steps t host port m r e) [
  | inl same ↦ ([], next here (looks same))
  | inr kept ↦
      let found = lookup t.wait host m in
      ((t.now, found) ∷ [], rw kept (stores t.now found (next here (looks refl)) h))
]
