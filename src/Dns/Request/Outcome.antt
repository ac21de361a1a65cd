-- ===== src/Dns/Request/Outcome.antt =====
-- What a round trip that sends a request leaves of the guard rail's trigger and of the decision that
-- is kept for error reports.
use wadjit.Prelude.{
  String, Bool, ◌≡◌, ◌∙◌, ◌||◌, refl, sym, ◌∙◌, true, false, Option, none, some, List, [], ◌∷◌,
  ◌++◌, arith, ap,
}
use wadjit.Run.{returns}
use wadjit.Dns.Policy.{
  DnsRefreshMode, default_mode, static_mode, single_lookup, ttl_mode, cadence_mode, other,
  DnsDecision, acts,
}
use wadjit.Dns.Manager.{
  DnsPolicyManager, RequestContext, Effect, awaits_lookup, calls_hook, closes_idle,
}
use wadjit.Dns.Resolve.{Moments, Resolved}
use wadjit.Dns.Resolve.Single.{resolve_single}
use wadjit.Dns.Resolve.Ttl.{resolve_ttl}
use wadjit.Dns.Resolve.Cadence.{resolve_cadence}
use wadjit.Dns.Resolve.Modes.{resolve, resolve_mode}
use wadjit.Dns.Request.{
  RequestUrl, RoundTripped, port_of, resolved_well, after_resolve, delegate, round_trip,
}
use wadjit.Dns.Request.Dial.{Sends, round_trip-Sends}

-- `resolve` leaves the guard rail and the kept decision alone.
abbrev Leaves : DnsPolicyManager → Resolved → Type 0
Leaves m r = (r.manager.guard ≡ m.guard) × (r.manager.last_decision ≡ m.last_decision)

module _ (t : Moments) (host port : String) (m : DnsPolicyManager) (r : Resolved) where
  resolve_single-Leaves : resolve_single t host port m ≡ returns r → Leaves m r
  unfolding resolve_single
  resolve_single-Leaves h = ground arith

  resolve_ttl-Leaves : resolve_ttl t host port m ≡ returns r → Leaves m r
  unfolding resolve_ttl
  resolve_ttl-Leaves h = ground arith

  resolve_cadence-Leaves : resolve_cadence t host port m ≡ returns r → Leaves m r
  unfolding resolve_cadence
  resolve_cadence-Leaves h = ground arith

  resolve_mode-Leaves :
      (mode : DnsRefreshMode) → resolve_mode mode t host port m ≡ returns r → Leaves m r
  unfolding resolve_mode
  resolve_mode-Leaves default_mode h = ground arith
  resolve_mode-Leaves static_mode h = ground arith
  resolve_mode-Leaves single_lookup h = resolve_single-Leaves h
  resolve_mode-Leaves ttl_mode h = resolve_ttl-Leaves h
  resolve_mode-Leaves cadence_mode h = resolve_cadence-Leaves h
  resolve_mode-Leaves (other n) h = ground arith

abbrev pub reports_trigger : Option DnsDecision → Bool
reports_trigger none = false
reports_trigger (some d) = d.guard_rail_triggered

abbrev is_close : Effect → Bool
is_close (awaits_lookup host) = false
is_close (calls_hook ctx d) = false
is_close closes_idle = true

-- One of the effects is that idle connections are closed.
abbrev pub closes : List Effect → Bool
closes [] = false
closes (e ∷ es) = is_close e || closes es

closes-append : (xs ys : List Effect) → closes (xs ++ ys) ≡ (closes xs || closes ys)
closes-append [] ys = refl
closes-append (e ∷ xs) ys = ground (arith, closes-append xs ys)

module _ (ctx sent : RequestContext) (host : String) (r : Resolved) where
  delegate-trigger :
      (delegate (after_resolve ctx host r)).sent ≡ some sent
      → r.manager.guard.triggered ≡ true
      → acts r.manager.guard.policy.action ≡ true
      → ((delegate (after_resolve ctx host r)).manager.guard.triggered ≡ false)
        × (reports_trigger sent.decision ≡ true)
  unfolding delegate after_resolve
  delegate-trigger s h a = ground arith

  resolved_well-closes :
      r.manager.guard.triggered ≡ true
      → acts r.manager.guard.policy.action ≡ true
      → closes (resolved_well ctx host r).effects ≡ true
  unfolding resolved_well
  resolved_well-closes h a = grind (arith, closes-append)

  delegate-closes :
      (delegate (after_resolve ctx host r)).sent ≡ some sent
      → closes (resolved_well ctx host r).effects ≡ true
      → closes (delegate (after_resolve ctx host r)).effects ≡ true
  unfolding delegate after_resolve
  delegate-closes s h = ground arith

  delegate-last_decision :
      (delegate (after_resolve ctx host r)).sent ≡ some sent
      → (delegate (after_resolve ctx host r)).manager.last_decision ≡ r.manager.last_decision
  unfolding delegate after_resolve
  delegate-last_decision s = ground arith

module _ (t : Moments) (ctx sent : RequestContext) (u : RequestUrl) (m : DnsPolicyManager)
    (r : RoundTripped) (ends : round_trip t ctx u m ≡ returns r) (sends : r.sent ≡ some sent) where
  sends_lem : Sends t ctx u m r
  sends_lem = round_trip-Sends t ctx sent u m r ends sends

  leaves : Leaves m sends_lem.resolved
  leaves =
      let s : Sends t ctx u m r = sends_lem in
      resolve_mode-Leaves t u.hostname (port_of u) m s.resolved m.policy.mode
        (unfold resolve in s.found)

  sent_by_delegate : (delegate (after_resolve ctx u.hostname sends_lem.resolved)).sent ≡ some sent
  sent_by_delegate = let s : Sends t ctx u m r = sends_lem in rw s.delegated sends

  -- Let `RoundTrip` send a request while the trigger of a guard rail with an action is up. Then the
  -- trigger is taken down, the decision in the request's context reports it, and idle connections
  -- are closed.
  pub round_trip-trigger :
      m.guard.triggered ≡ true
      → acts m.guard.policy.action ≡ true
      → (r.manager.guard.triggered ≡ false)
        × (reports_trigger sent.decision ≡ true)
        × (closes r.effects ≡ true)
  round_trip-trigger h a =
      let s : Sends t ctx u m r = sends_lem in
      let up : s.resolved.manager.guard.triggered ≡ true = rw (leaves.0) h in
      let acting : acts s.resolved.manager.guard.policy.action ≡ true = rw (leaves.0) a in
      let d = delegate-trigger ctx sent u.hostname s.resolved sent_by_delegate up acting in
      (
        ap (λ q. q.manager.guard.triggered) (sym s.delegated) ∙ d.0,
        d.1,
        ap (λ q. closes q.effects) (sym s.delegated)
            ∙ delegate-closes ctx sent u.hostname s.resolved sent_by_delegate
                (resolved_well-closes ctx sent u.hostname s.resolved up acting),
      )

  -- A request that is sent leaves the decision kept for error reports as it was, whatever its own
  -- decision: after a failed lookup the failure is kept, however many lookups succeed later.
  pub round_trip-last_decision : r.manager.last_decision ≡ m.last_decision
  round_trip-last_decision =
      let s : Sends t ctx u m r = sends_lem in
      ap (λ q. q.manager.last_decision) (sym s.delegated)
      ∙ delegate-last_decision ctx sent u.hostname s.resolved sent_by_delegate
      ∙ leaves.1
