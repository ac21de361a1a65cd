-- ===== src/Examples/Concurrent.antt =====
-- Two requests of a new manager that run at the same time, and a third one that is served by what the
-- last of them has stored, in TTL and in cadence mode.
use wadjit.Prelude.{List, ℕ, ◌≡◌, ◌+◌, ◌≤◌, some, ◌∷◌, [], refl, true, none, arith, pos, ◌+ℤ◌}
use wadjit.Clock.{Time}
use wadjit.Dns.Address.{v4, host_port}
use wadjit.Dns.Policy.{DnsPolicy, ttl_mode, cadence_mode, single_lookup, validate, normalize_ttl}
use wadjit.Dns.Manager.{DnsPolicyManager, new_dns_policy_manager, blank_decision}
use wadjit.Dns.Guard.{observe_result}
use wadjit.Dns.Lookup.{LookupReturn}
use wadjit.Dns.Resolve.{Resolved, first}
use wadjit.Dns.Resolve.Ttl.{clear_force, store_ttl, resolve_ttl}
use wadjit.Dns.Resolve.Cadence.{store_cadence, resolve_cadence}
use wadjit.Run.{Returns}
use wadjit.Dns.Resolve.Single.{store_single, resolve_single}
use wadjit.Dns.Interleaving.{Entry, Serves, looks, stores, observes, keeps, here, next}
use wadjit.Dns.Interleaving.Single.{stays, stored, others, Goes-resolve_single}
use wadjit.Dns.Interleaving.Ttl.{Reach-resolve_ttl}
use wadjit.Dns.Interleaving.Cadence.{Reach-resolve_cadence}
use wadjit.Examples.{manager, moments, network, policy, result_or}
use wadjit.Examples.Requests.{nothing_resolved}

abbrev bounded : DnsPolicy
bounded = policy ttl_mode (pos 0)

abbrev found : LookupReturn
found = record {
  addrs = v4 (10 ∷ 0 ∷ 0 ∷ 1 ∷ []) ∷ [];
  ttl = pos 30;
  lookup_dur = pos 3;
  err = none;
}

abbrev keep : Time → DnsPolicyManager → DnsPolicyManager
keep now m = store_ttl now (normalize_ttl m.policy found.ttl) found m

abbrev both_looked : DnsPolicyManager
both_looked = clear_force (clear_force (manager ttl_mode (pos 0)))

abbrev both_stored : DnsPolicyManager
both_stored = keep (pos 100) (keep (pos 101) both_looked)

abbrev observed_once : DnsPolicyManager
observed_once = observe_result (pos 110) (pos 503) none both_stored

abbrev third : Resolved
third = result_or nothing_resolved (resolve_ttl (moments 130 1) "a.example" "443" observed_once)

abbrev entries : List Entry
entries = (pos 100, found) ∷ (pos 101, found) ∷ []

Reach-resolve_ttl_example : Serves (pos 60) entries (pos 130) "443" third
unfolding validate clear_force store_ttl normalize_ttl observe_result resolve_ttl
    new_dns_policy_manager ◌+ℤ◌
Reach-resolve_ttl_example =
    Reach-resolve_ttl bounded refl refl (omega arith) network true entries observed_once
      (moments 130 1) "a.example" "443" third
      (next
        (stores (pos 100) found
          (stores (pos 101) found (next (next here (looks refl)) (looks refl)) (omega arith))
          (omega arith))
        (observes (pos 110) (pos 503) none refl))
      refl refl

abbrev on_cadence : DnsPolicyManager
on_cadence =
    store_cadence (pos 100) found
      (store_cadence (pos 101) found (clear_force (clear_force (manager cadence_mode (pos 0)))))

abbrev third_on_cadence : Resolved
third_on_cadence =
    result_or nothing_resolved (resolve_cadence (moments 150 1) "a.example" "443" on_cadence)

Reach-resolve_cadence_example : Serves (pos 50) entries (pos 150) "443" third_on_cadence
unfolding validate clear_force store_cadence resolve_cadence new_dns_policy_manager ◌+ℤ◌
Reach-resolve_cadence_example =
    Reach-resolve_cadence (policy cadence_mode (pos 0)) refl refl network true entries on_cadence
      (moments 150 1) "a.example" "443" third_on_cadence
      (stores (pos 100) found
        (stores (pos 101) found (next (next here (looks refl)) (looks refl)) (omega arith))
        (omega arith))
      refl refl

-- Two requests look up side by side; one fills the cache, a decision is kept, and the other overwrites it.
abbrev filled : DnsPolicyManager
filled = store_single (moments 100 0) found (manager single_lookup (pos 0))

abbrev reported : DnsPolicyManager
reported = record filled { last_decision = some (blank_decision "a.example" single_lookup) }

Goes-resolve_single_example :
    (1 + 0 ≤ 1)
    × (◌≡◌ {A = ℕ} 1 0 → (store_single (moments 101 0) found reported).cache ≡ filled.cache)
    × (Returns
        (resolve_single
          (moments 900 1)
          "a.example"
          "443"
          (store_single (moments 101 0) found reported))
        λ r.
          (r.err ≡ none)
          × (Returns
              (first (store_single (moments 101 0) found reported).cache.addrs)
              λ a. r.outcome.address ≡ host_port a "443")
          × (r.effects ≡ [])
          × (r.manager ≡ store_single (moments 101 0) found reported))
unfolding store_single
Goes-resolve_single_example =
    Goes-resolve_single filled 1 1 (store_single (moments 101 0) found reported) 0 (moments 900 1)
      "a.example" "443" refl
      (stored (moments 101 0) found
        (others stays (keeps (some (blank_decision "a.example" single_lookup)) refl)) refl refl)
