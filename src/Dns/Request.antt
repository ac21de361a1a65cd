-- ===== src/Dns/Request.antt =====
-- `prepareRequest`, `dialContext` and the transport's `RoundTrip` (dns_policy_manager.go): how a
-- resolved address and the guard rail reach the request that is sent.
pub mod Total
pub mod Dial
pub mod Fallback
pub mod Outcome
use wadjit.Prelude.{
  String, ◌&&◌, Bool, true, false, ◌||◌, Option, none, some, List, [], ◌∷◌, ◌++◌, str_eq, is_some,
  if◌then◌else◌,
}
use wadjit.GoError.{GoError, message}
use wadjit.Run.{Run, returns, ◌>>=◌}
use wadjit.Dns.Address.{Target, as_given, has_target}
use wadjit.Dns.Policy.{DnsDecision}
use wadjit.Dns.Manager.{
  DnsPolicyManager, RequestContext, Effect, calls_hook, closes_idle, blank_decision,
}
use wadjit.Dns.Guard.{consume_guard_trigger}
use wadjit.Dns.Resolve.{Moments, Resolved}
use wadjit.Dns.Resolve.Modes.{resolve}

-- What `Hostname()`, `Port()` and `Scheme` give of a request's URL.
pub record RequestUrl : Type 0 where
  pub scheme : String
  pub hostname : String
  pub port : String

unfoldable pub default_port : String → String
default_port scheme =
    if str_eq scheme "http" then "80" else if str_eq scheme "https" then "443" else ""

unfoldable pub port_of : RequestUrl → String
unfolding default_port
port_of u = if str_eq u.port "" then default_port u.scheme else u.port

pub record Prepared : Type 0 where
  pub manager : DnsPolicyManager
  pub context : RequestContext
  pub force_new_conn : Bool
  pub err : Option GoError
  pub effects : List Effect

hook_effects : DnsPolicyManager → RequestContext → DnsDecision → List Effect
hook_effects m ctx d = if m.hooked then calls_hook ctx d ∷ [] else []

with_plan : Target → RequestContext → RequestContext
with_plan target ctx = if has_target target then record ctx { plan = some target } else ctx

-- `resolve` has failed: a decision is kept and reported, with the error.
resolve_failed : RequestContext → GoError → Resolved → Prepared
unfolding hook_effects
resolve_failed ctx e r = elim r.outcome.decision [
  | none ↦ record {
    manager = r.manager;
    context = ctx;
    force_new_conn = false;
    err = some e;
    effects = r.effects;
  }
  | some decision ↦
      let d : DnsDecision = record decision { err = some e } in
      record {
        manager = record (r.manager) { last_decision = some d };
        context = ctx;
        force_new_conn = false;
        err = some e;
        effects = r.effects ++ hook_effects r.manager ctx d;
      }
]

-- The lookup has failed and the cached address stands in: the error is returned all the same.
fell_back : RequestContext → GoError → DnsDecision → Resolved → Prepared
unfolding hook_effects with_plan
fell_back ctx e decision r =
    let d : DnsDecision = record decision { fallback_used = true } in
    let ctx' : RequestContext = with_plan r.outcome.address (record ctx { decision = some d }) in
    record {
      manager = record (r.manager) { last_decision = some d };
      context = ctx';
      force_new_conn = r.outcome.force_new_conn;
      err = some e;
      effects = r.effects ++ hook_effects r.manager ctx' d;
    }

-- A decision is made up where only the hook or the guard rail wants one.
wanted_decision : String → Bool → DnsPolicyManager → Option DnsDecision → Option DnsDecision
wanted_decision host guard_triggered m (some d) = some d
wanted_decision host guard_triggered m none =
    if m.hooked || guard_triggered then some (blank_decision host m.policy.mode) else none

marked : Bool → Option DnsDecision → Option DnsDecision
marked guard_triggered none = none
marked guard_triggered (some d) =
    some (if guard_triggered then record d { guard_rail_triggered = true } else d)

with_decision : Option DnsDecision → RequestContext → RequestContext
with_decision none ctx = ctx
with_decision (some d) ctx = record ctx { decision = some d }

decision_effects : DnsPolicyManager → RequestContext → Option DnsDecision → List Effect
unfolding hook_effects
decision_effects m ctx none = []
decision_effects m ctx (some d) = hook_effects m ctx d

close_effects : Bool → List Effect
close_effects force = if force then closes_idle ∷ [] else []

resolved_well : RequestContext → String → Resolved → Prepared
unfolding with_plan wanted_decision marked with_decision decision_effects close_effects
    consume_guard_trigger
resolved_well ctx host r =
    let (m, guard_triggered) = consume_guard_trigger r.manager in
    let wanted = wanted_decision host guard_triggered m r.outcome.decision in
    let decision = marked guard_triggered wanted in
    let force : Bool = guard_triggered && is_some wanted || r.outcome.force_new_conn in
    let ctx' = with_decision decision (with_plan r.outcome.address ctx) in
    record {
      manager = m;
      context = ctx';
      force_new_conn = force;
      err = none;
      effects = r.effects ++ (decision_effects m ctx' decision ++ close_effects force);
    }

after_fallback : RequestContext → String → Option GoError → Option DnsDecision → Resolved → Prepared
unfolding fell_back resolved_well
after_fallback ctx host (some e) (some d) r = fell_back ctx e d r
after_fallback ctx host _ _ r = resolved_well ctx host r

pub after_resolve : RequestContext → String → Resolved → Prepared
unfolding resolve_failed after_fallback
after_resolve ctx host r = elim r.err [
  | some e ↦ resolve_failed ctx e r
  | none ↦ after_fallback ctx host r.outcome.fallback_err r.outcome.decision r
]

no_port : RequestContext → DnsPolicyManager → Prepared
no_port ctx m = record {
  manager = m;
  context = ctx;
  force_new_conn = false;
  err = some (message "cannot determine port for URL");
  effects = [];
}

unfoldable pub prepare_request :
    Moments → RequestContext → RequestUrl → DnsPolicyManager → Run Prepared
unfolding port_of after_resolve no_port
prepare_request t ctx u m =
    if str_eq (port_of u) ""
    then returns (no_port ctx m)
    else (do r ← resolve t u.hostname (port_of u) m; returns (after_resolve ctx u.hostname r))

-- The address that the dialer gets, for the address that the transport asks for.
unfoldable pub dial_target : RequestContext → String → Target
dial_target ctx address = elim ctx.plan [
  | none ↦ as_given address
  | some target ↦ if has_target target then target else as_given address
]

-- `sent` is the context of the request that the base transport sends, if one is sent.
pub record RoundTripped : Type 0 where
  pub manager : DnsPolicyManager
  pub sent : Option RequestContext
  pub err : Option GoError
  pub effects : List Effect

pub delegate : Prepared → RoundTripped
delegate p = record {
  manager = p.manager;
  sent = if is_some p.err then none else some p.context;
  err = p.err;
  effects = p.effects;
}

unfoldable pub round_trip :
    Moments → RequestContext → RequestUrl → DnsPolicyManager → Run RoundTripped
unfolding delegate
round_trip t ctx u m = do p ← prepare_request t ctx u m; returns (delegate p)
