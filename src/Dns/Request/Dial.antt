-- ===== src/Dns/Request/Dial.antt =====
-- Which address the dialer of a request gets.
use wadjit.Prelude.{
  String, ◌≡◌, true, false, none, some, arith, str_eq, Bool-cases, inl, inr, subst,
}
use wadjit.Run.{returns, panics, Returns, Run-cases}
use wadjit.Dns.Address.{addr_port, host_port}
use wadjit.Dns.Policy.{static_mode}
use wadjit.Dns.Manager.{DnsPolicyManager, RequestContext}
use wadjit.Dns.Resolve.{Moments, Resolved, first}
use wadjit.Dns.Resolve.Modes.{resolve}
use wadjit.Dns.Resolve.Address.{caches, FromCache, resolve-FromCache}
use wadjit.Dns.Request.{
  RequestUrl, RoundTripped, port_of, after_resolve, prepare_request, dial_target, delegate,
  round_trip,
}

-- The dialer gets the first address of the cache, as the request leaves it.
abbrev pub DialsCached : String → String → RequestContext → RoundTripped → Type 0
DialsCached port address sent r =
    Returns (first r.manager.cache.addrs) λ a. dial_target sent address ≡ host_port a port

delegate-DialsCached :
    (ctx sent : RequestContext) (host port address : String) (r : Resolved)
    → FromCache port r
    → (delegate (after_resolve ctx host r)).sent ≡ some sent
    → DialsCached port address sent (delegate (after_resolve ctx host r))
unfolding delegate after_resolve dial_target
delegate-DialsCached ctx sent host port address r c e = ground arith

delegate-sent-err :
    (ctx sent : RequestContext) (host : String) (r : Resolved)
    → (delegate (after_resolve ctx host r)).sent ≡ some sent
    → r.err ≡ none
unfolding delegate after_resolve
delegate-sent-err ctx sent host r e = ground arith

-- A request that is sent was resolved without an error.
pub record Sends (t : Moments) (ctx : RequestContext) (u : RequestUrl) (m : DnsPolicyManager)
    (r : RoundTripped) : Type 0 where
  pub resolved : Resolved
  pub found : resolve t u.hostname (port_of u) m ≡ returns resolved
  pub no_error : resolved.err ≡ none
  pub delegated : delegate (after_resolve ctx u.hostname resolved) ≡ r

module _ (t : Moments) (ctx sent : RequestContext) (u : RequestUrl) (m : DnsPolicyManager)
    (r : RoundTripped) (ends : round_trip t ctx u m ≡ returns r) (sends : r.sent ≡ some sent) where
  no_port_sends_nothing : str_eq (port_of u) "" ≡ true → ⊥
  unfolding round_trip prepare_request delegate
  no_port_sends_nothing n = ground arith

  resolve_panics_not :
      str_eq (port_of u) "" ≡ false → resolve t u.hostname (port_of u) m ≡ panics → ⊥
  unfolding round_trip prepare_request
  resolve_panics_not n p = ground arith

  resolve_returns :
      (a : Resolved)
      → str_eq (port_of u) "" ≡ false
      → resolve t u.hostname (port_of u) m ≡ returns a
      → delegate (after_resolve ctx u.hostname a) ≡ r
  unfolding round_trip prepare_request
  resolve_returns a n p = ground arith

  pub round_trip-Sends : Sends t ctx u m r
  round_trip-Sends = elim (Bool-cases (str_eq (port_of u) "")) [
    | inl n ↦ absurd (no_port_sends_nothing n)
    | inr n ↦ elim (Run-cases (resolve t u.hostname (port_of u) m)) [
      | inl p ↦ absurd (resolve_panics_not n p)
      | inr (a, p) ↦
          let d = resolve_returns a n p in
          record {
            resolved = a;
            found = p;
            no_error = delegate-sent-err ctx sent u.hostname a (rw d sends);
            delegated = d;
          }
    ]
  ]

  -- In the modes that look addresses up, let `RoundTrip` send a request. Whatever address the
  -- transport asks for, the dialer gets the first address of the cache as the request leaves it,
  -- with the port of the URL.
  pub round_trip-DialsCached :
      (address : String) → caches m.policy.mode ≡ true → DialsCached (port_of u) address sent r
  round_trip-DialsCached address c =
      let s : Sends t ctx u m r = round_trip-Sends in
      subst (DialsCached (port_of u) address sent) s.delegated (
        delegate-DialsCached ctx sent u.hostname (port_of u) address s.resolved
          (resolve-FromCache t u.hostname (port_of u) m s.resolved c s.found s.no_error)
          (rw s.delegated sends))

  -- In static mode, let `RoundTrip` send a request. Whatever address the transport asks for, the
  -- dialer gets the static address of the policy, and the cache and the clock have no part in it.
  pub round_trip-static :
      (address : String)
      → m.policy.mode ≡ static_mode
      → dial_target sent address ≡ addr_port m.policy.static_addr
  unfolding round_trip prepare_request delegate resolve dial_target
  round_trip-static address c = ground arith
