-- ===== src/Dns/Interleaving/Single.antt =====
-- Concurrent requests in single-lookup mode (dns_policy_manager.go). Requests that start before the
-- cache is filled look up side by side, and each stores what it finds.
use wadjit.Prelude.{
  ℕ, suc, ◌+◌, ◌≤◌, String, ◌≡◌, ◌∙◌, refl, ap, true, false, none, [], arith, non_empty, inl, inr,
}
use wadjit.Run.{Returns, returns}
use wadjit.Dns.Address.{host_port}
use wadjit.Dns.Manager.{DnsPolicyManager}
use wadjit.Dns.Lookup.{LookupReturn}
use wadjit.Dns.Resolve.{Moments, Resolved, first}
use wadjit.Dns.Resolve.Ttl.{clear_force}
use wadjit.Dns.Resolve.Single.{store_single, resolve_single}
use wadjit.Dns.Resolve.Single.Sections.{resolve_single-steps}
use wadjit.Dns.Interleaving.{
  Step, looks, observes, consumes, keeps, observe_result-Keeps, consume-Keeps,
}

-- From a manager `m` with `p` requests that are looking up, after any steps, in which `k` requests
-- stored: the manager and the requests that are looking up then.
pub data Goes (m : DnsPolicyManager) (p : ℕ) : ℕ → DnsPolicyManager → ℕ → Type 0 where
  stays : Goes m p 0 m p
  asks :
      {k q : ℕ} {n : DnsPolicyManager}
      → Goes m p k n q
      → non_empty n.cache.addrs ≡ false
      → Goes m p k n (suc q)
  stored :
      {k q q' : ℕ} {n : DnsPolicyManager} (t : Moments) (r : LookupReturn)
      → Goes m p k n q
      → q ≡ suc q'
      → non_empty r.addrs ≡ true
      → Goes m p (suc k) (store_single t r n) q'
  failed : {k q q' : ℕ} {n : DnsPolicyManager} → Goes m p k n q → q ≡ suc q' → Goes m p k n q'
  others : {k q : ℕ} {n o : DnsPolicyManager} → Goes m p k n q → Step n o → Goes m p k o q

cache-Step : (m n : DnsPolicyManager) → Step m n → n.cache ≡ m.cache
unfolding clear_force
cache-Step m n (looks e) = ap (λ o. o.cache) e
cache-Step m n (observes now status err e) =
    ap (λ o. o.cache) e ∙ (observe_result-Keeps now status err m).2
cache-Step m n (consumes e) = ap (λ o. o.cache) e ∙ (consume-Keeps m).2
cache-Step m n (keeps d e) = ap (λ o. o.cache) e

-- The cache is filled; each request that stored was looking up at the start, and without one the cache
-- is as it was.
record IsFilled (m : DnsPolicyManager) (p k : ℕ) (n : DnsPolicyManager) (q : ℕ) : Type 0 where
  filled : non_empty n.cache.addrs ≡ true
  counted : k + q ≤ p
  kept : k ≡ 0 → n.cache ≡ m.cache

Goes-IsFilled :
    (m : DnsPolicyManager) (p k : ℕ) (n : DnsPolicyManager) (q : ℕ)
    → Goes m p k n q
    → non_empty m.cache.addrs ≡ true
    → IsFilled m p k n q
unfolding store_single
Goes-IsFilled m p k n q stays f = record { filled = f; counted = omega arith; kept = λ h. refl }
Goes-IsFilled m p k n q (asks {q = b} g empty) f =
    let i = Goes-IsFilled m p k n b g f in cc (i.filled, empty)
Goes-IsFilled m p k n q (stored {k = j} {q = b} {n = o} t r g e found) f =
    let i = Goes-IsFilled m p j o b g f in
    record { filled = found; counted = omega (arith, i.counted, e); kept = λ h. cc h }
Goes-IsFilled m p k n q (failed {q = b} g e) f =
    let i = Goes-IsFilled m p k n b g f in
    record { filled = i.filled; counted = omega (arith, i.counted, e); kept = i.kept }
Goes-IsFilled m p k n q (others {n = o} g s) f =
    let i = Goes-IsFilled m p k o q g f in
    let same = cache-Step o n s in
    record {
      filled = ap (λ c. non_empty c.addrs) same ∙ i.filled;
      counted = i.counted;
      kept = λ h. same ∙ i.kept h;
    }

-- Let the cache be filled while `p` requests are still looking up. Whatever steps follow, also when
-- the guard rail demands lookups: at most those requests overwrite it, it is kept if none does, and a
-- request is resolved to its first address, with no error, no lookup and no change.
pub Goes-resolve_single :
    (m : DnsPolicyManager) (p k : ℕ) (n : DnsPolicyManager) (q : ℕ) (t : Moments)
    (host port : String)
    → non_empty m.cache.addrs ≡ true
    → Goes m p k n q
    → (k + q ≤ p)
      × (k ≡ 0 → n.cache ≡ m.cache)
      × (Returns (resolve_single t host port n) λ r.
          (r.err ≡ none)
          × (Returns (first n.cache.addrs) λ a. r.outcome.address ≡ host_port a port)
          × (r.effects ≡ [])
          × (r.manager ≡ n))
unfolding resolve_single
Goes-resolve_single m p k n q t host port f g =
    let i = Goes-IsFilled m p k n q g f in (i.counted, i.kept, ground (arith, i.filled))

-- A whole request takes one or two of these steps.
resolve_single-Goes :
    (t : Moments) (host port : String) (m : DnsPolicyManager) (p : ℕ) (r : Resolved)
    → resolve_single t host port m ≡ returns r
    → (k : ℕ) × Goes m p k r.manager p
resolve_single-Goes t host port m p r e = elim (resolve_single-steps t host port m r e) [
  | inl same ↦ (0, rw same stays)
  | inr (empty, found, same) ↦ (1, rw same (stored t _ (asks stays empty) refl found))
]
