-- ===== src/Dns/Interleaving.antt =====
-- Concurrent requests of one manager (dns_policy_manager.go). The mutex makes each critical section a
-- step: a request looks at the cache and takes the demand down, later perhaps stores what it has
-- looked up; results are observed, triggers consumed and decisions kept in between.
pub mod Ttl
pub mod Cadence
pub mod Single
use wadjit.Prelude.{
  String, Bool, none, List, [], ◌∷◌, pos, ◌<ℤ◌, ◌≡◌, ◌∙◌, refl, sym, ap, true, false, Option, arith,
  ◌≤ℤ◌, ℤ, non_empty, is_some, subst,
}
use wadjit.Clock.{Time, Duration, add, is_zero}
use wadjit.GoError.{GoError}
use wadjit.Dns.Policy.{DnsPolicy, DnsDecision, TtlResolver}
use wadjit.Dns.Manager.{DnsCacheEntry, DnsPolicyManager, new_dns_policy_manager}
use wadjit.Dns.Guard.{observe_result, consume_guard_trigger}
use wadjit.Run.{Returns}
use wadjit.Dns.Address.{host_port}
use wadjit.Dns.Lookup.{LookupReturn}
use wadjit.Dns.Resolve.{Resolved, first}
use wadjit.Dns.Resolve.Ttl.{clear_force}

-- A critical section that stores nothing: of some request, or of the observation of a result.
pub data Step (m n : DnsPolicyManager) : Type 0 where
  looks : n ≡ clear_force m → Step m n
  observes :
      (now : Time) (status : ℤ) (err : Option GoError)
      → n ≡ observe_result now status err m
      → Step m n
  consumes : n ≡ (consume_guard_trigger m).0 → Step m n
  keeps : (d : Option DnsDecision) → n ≡ record m { last_decision = d } → Step m n

-- What a request that has looked up stores: when the request began, and what its lookup gave.
abbrev pub Entry : Type 0
Entry = Time × LookupReturn

-- The managers that the steps lead to, in any order, with what was stored, the last first. `stored` is
-- the critical section that stores in the mode. The clock is after zero.
pub data Reach (stored : Time → LookupReturn → DnsPolicyManager → DnsPolicyManager)
    (m : DnsPolicyManager) : List Entry → DnsPolicyManager → Type 0 where
  here : Reach stored m [] m
  next :
      {l : List Entry} {n o : DnsPolicyManager} → Reach stored m l n → Step n o → Reach stored m l o
  stores :
      {l : List Entry} {n : DnsPolicyManager} (now : Time) (r : LookupReturn)
      → Reach stored m l n
      → pos 0 <ℤ now
      → Reach stored m ((now, r) ∷ l) (stored now r n)

-- The cache has the addresses of the last entry that was stored.
abbrev pub Caches : List Entry → DnsPolicyManager → Type 0
Caches [] m = non_empty m.cache.addrs ≡ false
Caches ((now, r) ∷ l) m = m.cache.addrs ≡ r.addrs

-- It is due for a lookup, at `due`, at the latest `bound` after the request began that stored it.
abbrev pub Lapses : Duration → List Entry → Time → Type 0
Lapses bound [] due = Unit {0}
Lapses bound ((now, r) ∷ l) due = (is_zero due ≡ false) × (due ≤ℤ add now bound)

-- When the cache is due follows from the entry and from the scheduled time.
pub record IsTimely (p : DnsPolicy) (due : DnsCacheEntry → Time → Time) (bound : Duration)
    (l : List Entry) (m : DnsPolicyManager) : Type 0 where
  pub same : m.policy ≡ p
  pub asks : is_some m.resolver ≡ true
  pub caches : Caches l m
  pub lapses : Lapses bound l (due m.cache m.cadence_next)

-- What a request gets that is served with no lookup at `now`: the first address of the last entry that
-- was stored, at most `bound` after the request began that stored it.
abbrev pub Serves : Duration → List Entry → Time → String → Resolved → Type 0
Serves bound [] now port r = ⊥
Serves bound ((began, found) ∷ l) now port r =
    (r.err ≡ none)
    × (Returns (first found.addrs) λ a. r.outcome.address ≡ host_port a port)
    × (now ≤ℤ add began bound)

-- What the guard rail leaves alone.
abbrev pub Keeps : DnsPolicyManager → DnsPolicyManager → Type 0
Keeps m n =
    (n.policy ≡ m.policy)
    × (n.resolver ≡ m.resolver)
    × (n.cache ≡ m.cache)
    × (n.cadence_next ≡ m.cadence_next)

pub observe_result-Keeps :
    (now : Time) (status : ℤ) (err : Option GoError) (m : DnsPolicyManager)
    → Keeps m (observe_result now status err m)
unfolding observe_result
observe_result-Keeps now status err m = ground arith

pub consume-Keeps : (m : DnsPolicyManager) → Keeps m (consume_guard_trigger m).0
unfolding consume_guard_trigger
consume-Keeps m = ground arith

module _ (p : DnsPolicy) (due : DnsCacheEntry → Time → Time) (bound : Duration) where
  Keeps-Caches : (l : List Entry) (m n : DnsPolicyManager) → Keeps m n → Caches l m → Caches l n
  Keeps-Caches [] m n k c = ground (arith, k.2)
  Keeps-Caches ((now, r) ∷ l) m n k c = ground (arith, k.2)

  Keeps-IsTimely :
      (l : List Entry) (m n : DnsPolicyManager)
      → Keeps m n
      → IsTimely p due bound l m
      → IsTimely p due bound l n
  Keeps-IsTimely l m n k i = record {
    same = k.0 ∙ i.same;
    asks = ap is_some k.1 ∙ i.asks;
    caches = Keeps-Caches l m n k i.caches;
    lapses = rw k.2 (rw k.3 i.lapses);
  }

  pub new-IsTimely :
      (resolver : TtlResolver) (hooked : Bool)
      → IsTimely p due bound [] (new_dns_policy_manager resolver p hooked)
  unfolding new_dns_policy_manager
  new-IsTimely resolver hooked = record { same = refl; asks = refl; caches = refl; lapses = tt }

  Step-IsTimely :
      (l : List Entry) (m n : DnsPolicyManager)
      → Step m n
      → IsTimely p due bound l m
      → IsTimely p due bound l n
  unfolding clear_force
  Step-IsTimely l m n (looks e) i =
      rw e (Keeps-IsTimely l m (clear_force m) (refl, refl, refl, refl) i)
  Step-IsTimely l m n (observes now status err e) i =
      rw e (Keeps-IsTimely l m _ (observe_result-Keeps now status err m) i)
  Step-IsTimely l m n (consumes e) i = rw e (Keeps-IsTimely l m _ (consume-Keeps m) i)
  Step-IsTimely l m n (keeps d e) i =
      rw e (Keeps-IsTimely l m (record m { last_decision = d }) (refl, refl, refl, refl) i)

  module _ (stored : Time → LookupReturn → DnsPolicyManager → DnsPolicyManager)
      (stored-IsTimely : (l : List Entry) (m : DnsPolicyManager) (now : Time) (r : LookupReturn)
        → pos 0 <ℤ now
        → IsTimely p due bound l m
        → IsTimely p due bound ((now, r) ∷ l) (stored now r m)) where
    pub Reach-IsTimely :
        (m : DnsPolicyManager) (l : List Entry) (n : DnsPolicyManager)
        → Reach stored m l n
        → IsTimely p due bound [] m
        → IsTimely p due bound l n
    Reach-IsTimely m l n here i = i
    Reach-IsTimely m l n (next {n = k} r s) i = Step-IsTimely l k n s (Reach-IsTimely m l k r i)
    Reach-IsTimely m l n (stores {l = b} {n = k} now found r h) i =
        stored-IsTimely b k now found h (Reach-IsTimely m b k r i)
