-- ===== src/Examples/Requests.antt =====
-- The theorems on requests at the first requests of a manager.
use wadjit.Prelude.{◌≡◌, refl, false, none, some, inr, [], ◌∷◌, arith, pos, ◌+ℤ◌, ◌-ℤ◌}
use wadjit.Clock.{sub}
use wadjit.GoError.{external}
use wadjit.Run.{Returns}
use wadjit.Dns.Address.{no_target}
use wadjit.Dns.Policy.{ttl_mode, cadence_mode, normalize_ttl, fallback_enabled}
use wadjit.Dns.Manager.{DnsPolicyManager, RequestContext, or_default, new_dns_policy_manager}
use wadjit.Dns.Guard.{observe_result, observe_all}
use wadjit.Dns.Lookup.{lookup, lookup_effects}
use wadjit.Dns.Resolve.{Resolved}
use wadjit.Dns.Resolve.Modes.{resolve}
use wadjit.Dns.Resolve.Ttl.{resolve_ttl}
use wadjit.Dns.Resolve.Cadence.{cadence_forced, resolve_cadence}
use wadjit.Dns.Resolve.Freshness.{resolve_ttl-served, resolve_ttl-asks_again}
use wadjit.Dns.Resolve.Schedule.{resolve_cadence-served, resolve_cadence-asks_again}
use wadjit.Dns.Resolve.Demand.{triggered-asks}
use wadjit.Dns.Request.{round_trip, RoundTripped, port_of, prepare_request}
use wadjit.Dns.Request.Dial.{DialsCached, round_trip-DialsCached}
use wadjit.Dns.Request.Fallback.{ReportsFallback, round_trip-fallback}
use wadjit.Examples.{manager, moments, failure, url, no_values, result_or}

abbrev pub nothing_resolved : Resolved
nothing_resolved = record {
  manager = manager ttl_mode (pos 0);
  outcome = record {
    address = no_target;
    force_new_conn = false;
    decision = none;
    fallback_err = none;
  };
  err = none;
  effects = [];
}

-- the first request of a manager in TTL mode
abbrev ttl_first : Resolved
ttl_first =
    result_or nothing_resolved
      (resolve_ttl (moments 100 0) "a.example" "443" (manager ttl_mode (pos 0)))

-- A failed request was observed in between.
abbrev ttl_later : DnsPolicyManager
ttl_later = observe_result (pos 110) (pos 503) none ttl_first.manager

resolve_ttl-served_example : Returns (resolve_ttl (moments 130 1) "a.example" "443" ttl_later) λ r.
    (r.effects ≡ []) × (r.manager ≡ ttl_later) × (r.outcome.address ≡ ttl_first.outcome.address)
unfolding resolve_ttl observe_result lookup normalize_ttl new_dns_policy_manager ◌+ℤ◌
resolve_ttl-served_example =
    resolve_ttl-served (moments 100 0) (moments 130 1) "a.example" "443" (manager ttl_mode (pos 0))
      ttl_first (omega arith) refl refl refl ttl_later refl refl (omega arith)

resolve_ttl-asks_again_example :
    Returns
      (resolve_ttl (moments 131 1) "a.example" "443" ttl_first.manager)
      λ r. r.effects ≡ lookup_effects "a.example" ttl_first.manager
unfolding resolve_ttl lookup normalize_ttl new_dns_policy_manager ◌+ℤ◌
resolve_ttl-asks_again_example =
    resolve_ttl-asks_again (moments 100 0) (moments 131 1) "a.example" "443"
      (manager ttl_mode (pos 0)) ttl_first (omega arith) refl refl refl (omega arith)

abbrev cadence_first : Resolved
cadence_first =
    result_or nothing_resolved
      (resolve_cadence (moments 100 0) "a.example" "443" (manager cadence_mode (pos 0)))

abbrev cadence_later : DnsPolicyManager
cadence_later = observe_result (pos 110) (pos 503) none cadence_first.manager

resolve_cadence-served_example :
    Returns (resolve_cadence (moments 150 1) "a.example" "443" cadence_later) λ r.
      (r.effects ≡ [])
      × (r.manager ≡ cadence_later)
      × (r.outcome.address ≡ cadence_first.outcome.address)
unfolding resolve_cadence observe_result lookup new_dns_policy_manager ◌+ℤ◌
resolve_cadence-served_example =
    resolve_cadence-served (moments 100 0) (moments 150 1) "a.example" "443"
      (manager cadence_mode (pos 0)) cadence_first (omega arith) (omega arith) refl refl refl
      cadence_later refl refl refl (omega arith)

resolve_cadence-asks_again_example :
    Returns
      (resolve_cadence (moments 151 1) "a.example" "443" cadence_first.manager)
      λ r. r.effects ≡ lookup_effects "a.example" cadence_first.manager
unfolding resolve_cadence lookup new_dns_policy_manager ◌+ℤ◌
resolve_cadence-asks_again_example =
    resolve_cadence-asks_again (moments 100 0) (moments 151 1) "a.example" "443"
      (manager cadence_mode (pos 0)) cadence_first (omega arith) (omega arith) refl refl refl
      (omega arith)

-- The manager after two failures, while its cache is fresh.
abbrev tripped : DnsPolicyManager
tripped = observe_all (failure 110 ∷ failure 111 ∷ []) ttl_first.manager

triggered-asks_example :
    (Returns
      (resolve_ttl (moments 112 0) "a.example" "443" tripped)
      λ r. r.effects ≡ lookup_effects "a.example" tripped)
    × (Returns
        (resolve_cadence (moments 112 0) "a.example" "443" tripped)
        λ r. r.effects ≡ lookup_effects "a.example" tripped)
unfolding resolve_ttl lookup normalize_ttl new_dns_policy_manager observe_all ◌+ℤ◌ ◌-ℤ◌ sub
triggered-asks_example =
    triggered-asks (failure 110 ∷ failure 111 ∷ []) ttl_first.manager (moments 112 0) "a.example"
      "443" refl refl refl

abbrev nothing_sent : RoundTripped
nothing_sent = record { manager = manager ttl_mode (pos 0); sent = none; err = none; effects = [] }

abbrev trip_of : DnsPolicyManager → RoundTripped
trip_of m = result_or nothing_sent (round_trip (moments 112 0) no_values url m)

abbrev sent_of : DnsPolicyManager → RequestContext
sent_of m = or_default (trip_of m).sent no_values

round_trip-DialsCached_example :
    DialsCached (port_of url) "a.example:443" (sent_of tripped) (trip_of tripped)
unfolding round_trip prepare_request resolve_ttl resolve lookup normalize_ttl new_dns_policy_manager
    observe_all ◌+ℤ◌ ◌-ℤ◌ sub
round_trip-DialsCached_example =
    round_trip-DialsCached (moments 112 0) no_values (sent_of tripped) url tripped (trip_of tripped)
      refl refl "a.example:443" refl

round_trip-fallback_example :
    Returns (round_trip (moments 151 1) no_values url cadence_first.manager) λ r.
      (r.sent ≡ none)
      × (r.err ≡ some (external 7))
      × (r.manager.cache ≡ cadence_first.manager.cache)
      × ReportsFallback r.manager.last_decision (external 7)
unfolding resolve_cadence lookup new_dns_policy_manager ◌+ℤ◌ cadence_forced port_of fallback_enabled
round_trip-fallback_example =
    round_trip-fallback (moments 151 1) no_values url cadence_first.manager (external 7) refl refl
      refl (inr (refl, refl)) refl
