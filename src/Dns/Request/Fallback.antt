-- ===== src/Dns/Request/Fallback.antt =====
-- A failed lookup with a cached address: the manager keeps and reports the address, and the transport
-- returns the error.
use wadjit.Prelude.{◌≡◌, true, false, Option, none, some, arith, str_eq, non_empty, ◌⊎◌, inl, inr}
use wadjit.GoError.{GoError}
use wadjit.Run.{Returns}
use wadjit.Dns.Policy.{ttl_mode, cadence_mode, DnsDecision, fallback_enabled}
use wadjit.Dns.Manager.{DnsPolicyManager, RequestContext}
use wadjit.Dns.Lookup.{lookup}
use wadjit.Dns.Resolve.{Moments}
use wadjit.Dns.Resolve.Ttl.{ttl_forced, resolve_ttl}
use wadjit.Dns.Resolve.Cadence.{cadence_forced, resolve_cadence}
use wadjit.Dns.Resolve.Modes.{resolve}
use wadjit.Dns.Request.{RequestUrl, port_of, prepare_request, round_trip}

-- The kept decision says that the fallback was used, and why.
abbrev pub ReportsFallback : Option DnsDecision → GoError → Type 0
ReportsFallback none e = ⊥
ReportsFallback (some d) e = (d.fallback_used ≡ true) × (d.err ≡ some e)

-- The mode asks for a lookup now, and lets the cache stand in for a failed one.
abbrev pub NeedsLookup : Moments → DnsPolicyManager → Type 0
NeedsLookup t m =
    ((m.policy.mode ≡ ttl_mode) × (ttl_forced t.now m ≡ true))
    ⊎ ((m.policy.mode ≡ cadence_mode) × (cadence_forced t.now m ≡ true))

module _ (t : Moments) (ctx : RequestContext) (u : RequestUrl) (m : DnsPolicyManager) (e : GoError)
    (has_port : str_eq (port_of u) "" ≡ false) (failed : (lookup t.wait u.hostname m).err ≡ some e)
    (cached : non_empty m.cache.addrs ≡ true) where
  -- In TTL mode with the fallback enabled, let a lookup that the request needs fail while an address
  -- is cached. Then `RoundTrip` sends nothing and returns the lookup's error; the cache is kept, and
  -- the decision kept for error reports says that the fallback was used.
  round_trip-ttl_fallback :
      m.policy.mode ≡ ttl_mode
      → ttl_forced t.now m ≡ true
      → fallback_enabled m.policy ≡ true
      → Returns (round_trip t ctx u m) λ r.
        (r.sent ≡ none)
        × (r.err ≡ some e)
        × (r.manager.cache ≡ m.cache)
        × ReportsFallback r.manager.last_decision e
  unfolding round_trip prepare_request resolve resolve_ttl
  round_trip-ttl_fallback mode forced enabled = ground arith

  -- In cadence mode with the fallback enabled, let a lookup that the request needs fail while an
  -- address is cached. Then `RoundTrip` sends nothing and returns the lookup's error; the cache is
  -- kept, and the decision kept for error reports says that the fallback was used.
  round_trip-cadence_fallback :
      m.policy.mode ≡ cadence_mode
      → cadence_forced t.now m ≡ true
      → fallback_enabled m.policy ≡ true
      → Returns (round_trip t ctx u m) λ r.
        (r.sent ≡ none)
        × (r.err ≡ some e)
        × (r.manager.cache ≡ m.cache)
        × ReportsFallback r.manager.last_decision e
  unfolding round_trip prepare_request resolve resolve_cadence
  round_trip-cadence_fallback mode forced enabled = ground arith

  -- In TTL or cadence mode with the fallback enabled, let a lookup that the request needs fail while an
  -- address is cached. Then `RoundTrip` sends nothing and returns the lookup's error; the cache is
  -- kept, and the decision kept for error reports says that the fallback was used.
  pub round_trip-fallback :
      NeedsLookup t m
      → fallback_enabled m.policy ≡ true
      → Returns (round_trip t ctx u m) λ r.
        (r.sent ≡ none)
        × (r.err ≡ some e)
        × (r.manager.cache ≡ m.cache)
        × ReportsFallback r.manager.last_decision e
  round_trip-fallback (inl (mode, forced)) enabled = round_trip-ttl_fallback mode forced enabled
  round_trip-fallback (inr (mode, forced)) enabled = round_trip-cadence_fallback mode forced enabled
