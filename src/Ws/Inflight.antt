-- ===== src/Ws/Inflight.antt =====
-- The messages that are in flight bound what the read pump delivers.
use wadjit.Prelude.{
  ℕ, suc, String, ◌≡◌, ◌≤◌, ◌+◌, true, Option, none, List, [], ◌∷◌, ◌++◌, ◌⊎◌, arith, is_some,
  length, length-append, subst, ap, some, ◌∙◌, if◌then◌else◌,
}
use wadjit.Clock.{Time}
use wadjit.GoError.{GoError}
use wadjit.Outcome.{Outcome, finishes, crashes, blocks}
use wadjit.Response.Watcher.{WatcherResponse}
use wadjit.Ws.Endpoint.{WsInflightMessage, WsEndpoint, WsStep, with_lock, load, delete, store}
use wadjit.Ws.JsonRpc.{JsonRpc}
use wadjit.Ws.Connection.{Dialed, Closing, is_persistent, close_ws, initialize_ws, dial_reconnect}
use wadjit.Ws.Pump.{ReadError, pump_head, pump_read}
use wadjit.Ws.Persistent.{PersistentCalls, execute_locked, left_waiting}

-- The responses with a payload.
abbrev pub payloads : List WatcherResponse → ℕ
payloads [] = 0
payloads (r ∷ l) = if is_some r.payload then suc (payloads l) else payloads l

payloads-append : (l r : List WatcherResponse) → payloads (l ++ r) ≡ payloads l + payloads r
payloads-append [] r = omega arith
payloads-append (x ∷ l) r = ground (arith, payloads-append l r)

-- What holds if the call returns.
abbrev IfFinishes : {Ident : Type 0} → Outcome (WsStep Ident) → (WsStep Ident → Type 0) → Type 0
IfFinishes (finishes s) P = P s
IfFinishes crashes P = Unit {0}
IfFinishes blocks P = Unit {0}

module _ {Ident : Type 0} where
  length-delete-le :
      (key : String) (l : List (String × WsInflightMessage Ident))
      → length (delete key l) ≤ length l
  unfolding delete
  length-delete-le key [] = omega arith
  length-delete-le key ((j, v) ∷ l) = ground (arith, length-delete-le key l)

  length-delete-loaded :
      (key : String) (l : List (String × WsInflightMessage Ident))
      → is_some (load key l) ≡ true
      → suc (length (delete key l)) ≤ length l
  unfolding load delete
  length-delete-loaded key [] h = cc h
  length-delete-loaded key ((j, v) ∷ l) h =
      ground (arith, length-delete-loaded key l, length-delete-le key l)

  -- A step of a persistent endpoint delivers no more than it writes and takes off, and the mode stays.
  abbrev Pays : WsEndpoint Ident → WsStep Ident → Type 0
  Pays e s =
      (payloads s.sent + length s.endpoint.inflight_msgs
        ≤ length s.written + length e.inflight_msgs)
      × (is_persistent s.endpoint.mode ≡ true)

  close-Pays :
      (r : Closing) (e : WsEndpoint Ident)
      → is_persistent e.mode ≡ true
      → IfFinishes (close_ws r e) (Pays e)
  unfolding close_ws
  close-Pays r e m = ground arith

  initialize-Pays :
      (dialed : Dialed ⊎ GoError) (watcher_id : String) (chan : Option ℕ) (e : WsEndpoint Ident)
      → is_persistent e.mode ≡ true
      → IfFinishes (initialize_ws dialed watcher_id chan e) (Pays e)
  unfolding initialize_ws
  initialize-Pays dialed watcher_id chan e m = ground arith

  dial-Pays :
      (dialed : Dialed ⊎ GoError) (e : WsEndpoint Ident)
      → is_persistent e.mode ≡ true
      → IfFinishes (with_lock (dial_reconnect dialed) e) (Pays e)
  unfolding with_lock dial_reconnect
  dial-Pays dialed e m = ground arith

  pump_head-Pays :
      (e : WsEndpoint Ident) → is_persistent e.mode ≡ true → IfFinishes (pump_head e) (Pays e)
  unfolding pump_head
  pump_head-Pays e m = ground arith

module _ {Req Resp Ident : Type 0} (k : JsonRpc Req Resp Ident) where
  execute-Pays :
      (c : PersistentCalls) (e : WsEndpoint Ident)
      → is_persistent e.mode ≡ true
      → IfFinishes (with_lock (execute_locked k c) e) (Pays e)
  unfolding execute_locked
  execute-Pays c e m = grind (arith, length-delete-le)

  pump_read-Pays :
      (now : Time) (close_err : Option GoError) (read : List ℕ ⊎ ReadError) (e : WsEndpoint Ident)
      → is_persistent e.mode ≡ true
      → IfFinishes (pump_read k now close_err read e) (Pays e)
  unfolding pump_read
  pump_read-Pays now close_err read e m = grind (arith, length-delete-loaded, length-delete-le)

  -- A call of the endpoint that returns, a critical section of `Execute`, or a step of the read pump.
  pub data Step (e : WsEndpoint Ident) (s : WsStep Ident) : Type 0 where
    initializes :
        (dialed : Dialed ⊎ GoError) (watcher_id : String) (chan : Option ℕ)
        → initialize_ws dialed watcher_id chan e ≡ finishes s
        → Step e s
    dials :
        (dialed : Dialed ⊎ GoError) → with_lock (dial_reconnect dialed) e ≡ finishes s → Step e s
    executes : (c : PersistentCalls) → with_lock (execute_locked k c) e ≡ finishes s → Step e s
    closes : (r : Closing) → close_ws r e ≡ finishes s → Step e s
    starts_round : pump_head e ≡ finishes s → Step e s
    reads :
        (now : Time) (close_err : Option GoError) (read : List ℕ ⊎ ReadError)
        → pump_read k now close_err read e ≡ finishes s
        → Step e s

  -- The steps from `e`, in any order, with all that they send and write, and the number of executions
  -- that wait for ever after their write has failed: what such a call leaves is there for the others.
  pub data Reach (e : WsEndpoint Ident) : ℕ → WsStep Ident → Type 0 where
    here : Reach e 0 (record { endpoint = e; sent = []; written = []; closed = []; err = none })
    next :
        {n : ℕ} {s t : WsStep Ident}
        → Reach e n s
        → Step s.endpoint t
        → Reach e n (record t {
          sent = s.sent ++ t.sent;
          written = s.written ++ t.written;
          closed = s.closed ++ t.closed;
        })
    waits :
        {n : ℕ} {s : WsStep Ident} {f : WsEndpoint Ident} (c : PersistentCalls)
        → Reach e n s
        → left_waiting k c s.endpoint ≡ some f
        → Reach e (suc n) (record s { endpoint = f })

  -- An execution that leaves its state so waits for ever.
  left_waiting-blocks :
      (c : PersistentCalls) (e f : WsEndpoint Ident)
      → left_waiting k c e ≡ some f
      → with_lock (execute_locked k c) e ≡ blocks
  unfolding left_waiting execute_locked
  left_waiting-blocks c e f h = ground arith

  -- It adds one message at most.
  left_waiting-stores :
      (c : PersistentCalls) (e f : WsEndpoint Ident)
      → left_waiting k c e ≡ some f
      → (length f.inflight_msgs ≤ suc (length e.inflight_msgs)) × (f.mode ≡ e.mode)
  unfolding left_waiting store
  left_waiting-stores c e f h = grind (arith, length-delete-le)

  of_finishes :
      (P : WsStep Ident → Type 0) (o : Outcome (WsStep Ident)) (s : WsStep Ident)
      → o ≡ finishes s
      → IfFinishes o P
      → P s
  of_finishes P o s h p = subst (λ x. IfFinishes x P) h p

  Step-Pays :
      (e : WsEndpoint Ident) (s : WsStep Ident) → is_persistent e.mode ≡ true → Step e s → Pays e s
  Step-Pays e s m (initializes d w c h) = of_finishes (Pays e) _ s h (initialize-Pays d w c e m)
  Step-Pays e s m (dials d h) = of_finishes (Pays e) _ s h (dial-Pays d e m)
  Step-Pays e s m (executes c h) = of_finishes (Pays e) _ s h (execute-Pays c e m)
  Step-Pays e s m (closes r h) = of_finishes (Pays e) _ s h (close-Pays r e m)
  Step-Pays e s m (starts_round h) = of_finishes (Pays e) _ s h (pump_head-Pays e m)
  Step-Pays e s m (reads now err read h) =
      of_finishes (Pays e) _ s h (pump_read-Pays now err read e m)

  Reach-Pays :
      (e : WsEndpoint Ident) (n : ℕ) (s : WsStep Ident)
      → is_persistent e.mode ≡ true
      → Reach e n s
      → (payloads s.sent + length s.endpoint.inflight_msgs
          ≤ length s.written + n + length e.inflight_msgs)
        × (is_persistent s.endpoint.mode ≡ true)
  Reach-Pays e n s m here = (omega arith, m)
  Reach-Pays e n s m (next {s = t} {t = u} r st) =
      let before = Reach-Pays e n t m r in
      let after = Step-Pays t.endpoint u before.1 st in
      (
        omega (
          arith,
          before.0,
          after.0,
          payloads-append t.sent u.sent,
          length-append t.written u.written,
        ),
        after.1,
      )
  Reach-Pays e n s m (waits {n = b} {s = t} {f = f} c r h) =
      let before = Reach-Pays e b t m r in
      let left = left_waiting-stores c t.endpoint f h in
      (omega (arith, before.0, left.0), ap is_persistent left.1 ∙ before.1)

  -- Let the steps of a persistent endpoint come in any order: its initialisations, its closings, the
  -- critical sections of its executions and the steps of its read pump that return, and the executions
  -- whose write fails, which wait for ever and leave their message in flight. From no message in
  -- flight, the payloads that it has delivered and the messages still in flight together are no more
  -- than the messages that it has written and the writes that have failed.
  pub Reach-payloads :
      (e : WsEndpoint Ident) (failed : ℕ) (s : WsStep Ident)
      → is_persistent e.mode ≡ true
      → e.inflight_msgs ≡ []
      → Reach e failed s
      → payloads s.sent + length s.endpoint.inflight_msgs ≤ length s.written + failed
  Reach-payloads e failed s m none_sent r =
      omega (arith, (Reach-Pays e failed s m r).0, ap length none_sent)
