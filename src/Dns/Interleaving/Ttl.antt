-- ===== src/Dns/Interleaving/Ttl.antt =====
-- Concurrent requests in TTL mode: how stale the addresses are that a request gets with no lookup.
use wadjit.Prelude.{
  List, ◌∷◌, String, Bool, ◌≡◌, refl, true, false, none, [], arith, pos, ◌≤ℤ◌, ◌<ℤ◌, +ℤ_parts,
  is_some, Bool-cases, inl, inr,
}
use wadjit.Clock.{Time, add, is_zero}
use wadjit.Run.{returns, Returns-eq}
use wadjit.Dns.Policy.{DnsPolicy, TtlResolver, ttl_mode, validate, normalize_ttl}
use wadjit.Dns.Policy.Ttl.{normalize_ttl_bounds}
use wadjit.Dns.Manager.{DnsCacheEntry, DnsPolicyManager, new_dns_policy_manager}
use wadjit.Dns.Lookup.{LookupReturn, lookup, lookup_effects}
use wadjit.Dns.Resolve.{Moments, Resolved}
use wadjit.Dns.Resolve.Ttl.{ttl_forced, clear_force, ttl_entry, store_ttl, resolve_ttl}
use wadjit.Dns.Resolve.Ttl.Sections.{resolve_ttl-steps}
use wadjit.Dns.Resolve.Freshness.{resolve_ttl-asks}
use wadjit.Dns.Interleaving.{
  Entry, Reach, IsTimely, Serves, here, next, looks, stores, new-IsTimely, Reach-IsTimely,
}

-- The last critical section of a request that has looked up.
abbrev pub store_normalized : Time → LookupReturn → DnsPolicyManager → DnsPolicyManager
store_normalized now r m = store_ttl now (normalize_ttl m.policy r.ttl) r m

abbrev expiry_of : DnsCacheEntry → Time → Time
expiry_of c scheduled = c.expires_at

module _ (p : DnsPolicy) (mode : p.mode ≡ ttl_mode) (valid : validate p ≡ none)
    (bounded : pos 0 <ℤ p.ttl_max) where
  ttl_entry-expires :
      (now : Time) (r : LookupReturn)
      → pos 0 <ℤ now
      → (is_zero (ttl_entry now (normalize_ttl p r.ttl) r).expires_at ≡ false)
        × ((ttl_entry now (normalize_ttl p r.ttl) r).expires_at ≤ℤ add now p.ttl_max)
  unfolding ttl_entry
  ttl_entry-expires now r h = ground (
    arith,
    normalize_ttl_bounds p r.ttl mode valid bounded,
    +ℤ_parts now (normalize_ttl p r.ttl),
    +ℤ_parts now p.ttl_max,
  )

  stored-IsTimely :
      (l : List Entry) (m : DnsPolicyManager) (now : Time) (r : LookupReturn)
      → pos 0 <ℤ now
      → IsTimely p expiry_of p.ttl_max l m
      → IsTimely p expiry_of p.ttl_max ((now, r) ∷ l) (store_normalized now r m)
  unfolding store_ttl ttl_entry
  stored-IsTimely l m now r h i =
      rw i.same
        (record { same = refl; asks = i.asks; caches = refl; lapses = ttl_entry-expires now r h })

  not_forced :
      (t : Moments) (host port : String) (m : DnsPolicyManager) (r : Resolved)
      → is_some m.resolver ≡ true
      → resolve_ttl t host port m ≡ returns r
      → r.effects ≡ []
      → ttl_forced t.now m ≡ false
  unfolding lookup_effects
  not_forced t host port m r s e q = elim (Bool-cases (ttl_forced t.now m)) [
    | inr no_force ↦ no_force
    | inl forced ↦ absurd (ground (arith, Returns-eq _ _ e (resolve_ttl-asks t host port m forced)))
  ]

  not_forced-Serves :
      (t : Moments) (host port : String) (l : List Entry) (m : DnsPolicyManager) (r : Resolved)
      → ttl_forced t.now m ≡ false
      → resolve_ttl t host port m ≡ returns r
      → IsTimely p expiry_of p.ttl_max l m
      → Serves p.ttl_max l t.now port r
  unfolding ttl_forced resolve_ttl
  not_forced-Serves t host port [] m r f e i = ground (arith, i.caches)
  not_forced-Serves t host port ((began, found) ∷ l) m r f e i =
      ground (arith, i.caches, i.lapses, +ℤ_parts began p.ttl_max)

  -- Let the policy be a valid TTL policy with a positive TTLMax. However the critical sections of
  -- concurrent requests and observations are interleaved from a new manager on, with a clock after
  -- zero: a request that is served with no lookup dials the first of the addresses that were stored
  -- last, with no error, and is no later than TTLMax after the request began that stored them.
  pub Reach-resolve_ttl :
      (resolver : TtlResolver) (hooked : Bool) (l : List Entry) (m : DnsPolicyManager) (t : Moments)
      (host port : String) (r : Resolved)
      → Reach store_normalized (new_dns_policy_manager resolver p hooked) l m
      → resolve_ttl t host port m ≡ returns r
      → r.effects ≡ []
      → Serves p.ttl_max l t.now port r
  Reach-resolve_ttl resolver hooked l m t host port r reached e served =
      let timely =
        Reach-IsTimely p expiry_of p.ttl_max store_normalized stored-IsTimely _ l m reached
          (new-IsTimely p expiry_of p.ttl_max resolver hooked) in
      not_forced-Serves t host port l m r (not_forced t host port m r timely.asks e served) e timely

-- What a whole request does to the manager is one or two of these steps.
resolve_ttl-Reach :
    (t : Moments) (host port : String) (m : DnsPolicyManager) (r : Resolved)
    → pos 0 <ℤ t.now
    → resolve_ttl t host port m ≡ returns r
    → (l : List Entry) × Reach store_normalized m l r.manager
unfolding clear_force
resolve_ttl-Reach t host port m r h e = elim (resolve_ttl-steps t host port m r e) [
  | inl same ↦ ([], next here (looks same))
  | inr kept ↦
      let found = lookup t.wait host m in
      ((t.now, found) ∷ [], rw kept (stores t.now found (next here (looks refl)) h))
]
