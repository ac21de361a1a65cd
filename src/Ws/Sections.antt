-- ===== src/Ws/Sections.antt =====
-- `Execute` of a persistent endpoint is a run of its critical sections (task_ws.go).
use wadjit.Prelude.{◌≡◌, none, [], ◌++◌, ◌⊎◌, inl, inr, arith, refl, sym, ap}
use wadjit.Outcome.{Outcome, finishes, crashes, blocks, ◌>>=◌}
use wadjit.Ws.Endpoint.{WsEndpoint, WsStep, with_lock, also}
use wadjit.Ws.JsonRpc.{JsonRpc}
use wadjit.Ws.Connection.{reconnect, dial_reconnect, nil_conn, wait_pumps}
use wadjit.Ws.Persistent.{
  PersistentCalls, WsPersistentProtocol, unknown_protocol, json_rpc, other_protocol, execute_locked,
  connected, execute_connected, execute_persistent,
}
use wadjit.Ws.Inflight.{Reach, here, next, dials, executes}

bound :
    {A B : Type 0} (o : Outcome A) (f : A → Outcome B) (b : B)
    → o >>= f ≡ finishes b
    → (a : A) × (o ≡ finishes a) × (f a ≡ finishes b)
bound (finishes a) f b h = (a, refl, h)
bound crashes f b h = cc h
bound blocks f b h = cc h

module _ {Req Resp Ident : Type 0} (k : JsonRpc Req Resp Ident) where
  -- The steps end as the call does.
  record Runs (e : WsEndpoint Ident) (s : WsStep Ident) : Type 0 where
    last : WsStep Ident
    reached : Reach k e 0 last
    endpoint : last.endpoint ≡ s.endpoint
    sent : last.sent ≡ s.sent
    written : last.written ≡ s.written
    closed : last.closed ≡ s.closed

  still :
      (e : WsEndpoint Ident) (s : WsStep Ident)
      → s.endpoint ≡ e
      → s.sent ≡ []
      → s.written ≡ []
      → s.closed ≡ []
      → Runs e s
  still e s same silent unwritten unclosed = record {
    last = record { endpoint = e; sent = []; written = []; closed = []; err = none };
    reached = here;
    endpoint = sym same;
    sent = sym silent;
    written = sym unwritten;
    closed = sym unclosed;
  }

  connected-cases :
      (c : PersistentCalls) (e : WsEndpoint Ident) (s : WsStep Ident)
      → connected k c e ≡ finishes s
      → ((s.endpoint ≡ e) × (s.sent ≡ []) × (s.written ≡ []) × (s.closed ≡ []))
        ⊎ (with_lock (dial_reconnect c.dialed) e ≡ finishes s)
  unfolding connected reconnect nil_conn wait_pumps
  connected-cases c e s h = ground arith

  connected-Runs :
      (c : PersistentCalls) (e : WsEndpoint Ident) (s : WsStep Ident)
      → connected k c e ≡ finishes s
      → Runs e s
  connected-Runs c e s h = elim (connected-cases c e s h) [
    | inl q ↦ still e s q.0 q.1 q.2 q.3
    | inr dialed ↦ record {
      last = s;
      reached = next here (dials c.dialed dialed);
      endpoint = refl;
      sent = refl;
      written = refl;
      closed = refl;
    }
  ]

  also-cases :
      (s u : WsStep Ident) (o : Outcome (WsStep Ident))
      → also s o ≡ finishes u
      → (t : WsStep Ident) × (o ≡ finishes t)
        × (u ≡ record t {
          sent = s.sent ++ t.sent;
          written = s.written ++ t.written;
          closed = s.closed ++ t.closed;
        })
  unfolding also
  also-cases s u (finishes t) h = (t, refl, cc h)
  also-cases s u crashes h = cc h
  also-cases s u blocks h = cc h

  execute_connected-cases :
      (c : PersistentCalls) (s u : WsStep Ident)
      → execute_connected k c s ≡ finishes u
      → (s ≡ u) ⊎ (also s (with_lock (execute_locked k c) s.endpoint) ≡ finishes u)
  unfolding execute_connected
  execute_connected-cases c s u h = ground arith

  execute_connected-Runs :
      (c : PersistentCalls) (e : WsEndpoint Ident) (s u : WsStep Ident)
      → Runs e s
      → execute_connected k c s ≡ finishes u
      → Runs e u
  execute_connected-Runs c e s u r h = elim (execute_connected-cases c s u h) [
    | inl same ↦ rw (← same) r
    | inr locked ↦
        let (t, run, is_both) = also-cases s u (with_lock (execute_locked k c) s.endpoint) locked in
        rw is_both (record {
          last = record t {
            sent = r.last.sent ++ t.sent;
            written = r.last.written ++ t.written;
            closed = r.last.closed ++ t.closed;
          };
          reached = next r.reached (executes c (rw r.endpoint run));
          endpoint = refl;
          sent = ap (λ l. l ++ t.sent) r.sent;
          written = ap (λ l. l ++ t.written) r.written;
          closed = ap (λ l. l ++ t.closed) r.closed;
        })
  ]

  execute_persistent-cases :
      (p : WsPersistentProtocol) (c : PersistentCalls) (e : WsEndpoint Ident) (u : WsStep Ident)
      → execute_persistent k p c e ≡ finishes u
      → ((u.endpoint ≡ e) × (u.sent ≡ []) × (u.written ≡ []) × (u.closed ≡ []))
        ⊎ ((s : WsStep Ident) × (connected k c e ≡ finishes s)
            × (execute_connected k c s ≡ finishes u))
  unfolding execute_persistent
  execute_persistent-cases unknown_protocol c e u h = inl (ground arith)
  execute_persistent-cases (other_protocol n) c e u h = inl (ground arith)
  execute_persistent-cases json_rpc c e u h =
      inr (bound (connected k c e) (execute_connected k c) u h)

  -- A call of `Execute` that returns is a run of its critical sections, from the same endpoint, that
  -- leaves the same endpoint and sends, writes and closes the same.
  execute_persistent-Runs :
      (p : WsPersistentProtocol) (c : PersistentCalls) (e : WsEndpoint Ident) (u : WsStep Ident)
      → execute_persistent k p c e ≡ finishes u
      → Runs e u
  execute_persistent-Runs p c e u h = elim (execute_persistent-cases p c e u h) [
    | inl q ↦ still e u q.0 q.1 q.2 q.3
    | inr q ↦ execute_connected-Runs c e q.0 u (connected-Runs c e q.0 q.1) q.2
  ]
