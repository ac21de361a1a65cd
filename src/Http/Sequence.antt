-- ===== src/Http/Sequence.antt =====
-- Executions of the tasks of several HTTP endpoints, one after the other, in any order (task_http.go).
use wadjit.Prelude.{
  ℕ, ◌≡◌, refl, ap, ◌∙◌, none, some, List, [], ◌∷◌, ◌++◌, arith, is_some, true, if◌then◌else◌, ◌==◌,
}
use wadjit.Outcome.{Outcome, finishes, ◌>>=◌, Finishes, Finishes-value, Finishes-bind}
use wadjit.Dns.Manager.{DnsPolicyManager}
use wadjit.Response.Watcher.{WatcherResponse}
use wadjit.Http.Endpoint.{HttpUrl, HttpEndpoint}
use wadjit.Http.Execute.{HttpCalls, HttpStep, task, execute_http}
use wadjit.Http.Answers.{IsReady, One, failure_of, manager_after}

abbrev pub updated : {A : Type 0} → ℕ → A → (ℕ → A) → ℕ → A
updated i a f j = if i == j then a else f j

-- The endpoints are numbered; a number and what the libraries give stand for an execution.
unfoldable pub execute_all :
    List (ℕ × HttpCalls) → (ℕ → HttpEndpoint) → Outcome ((ℕ → HttpEndpoint) × List WatcherResponse)
unfolding execute_http
execute_all [] es = finishes (es, [])
execute_all ((i, c) ∷ l) es = do
  s ← execute_http (task (es i)) c (es i)
  q ← execute_all l (updated i s.endpoint es)
  finishes (q.0, s.sent ++ q.1)

-- The response of one execution.
pub record IsAnswer (e : HttpEndpoint) (c : HttpCalls) (x : WatcherResponse) : Type 0 where
  pub of_task : x.task_id ≡ e.id
  pub of_watcher : x.watcher_id ≡ e.watcher_id
  pub at_url : (u : HttpUrl) → e.url ≡ some u → x.url ≡ u.text
  pub failed : x.err ≡ failure_of c
  pub has_payload : x.err ≡ none → is_some x.payload ≡ true

-- One response for each execution, in their order.
abbrev pub AllAnswer : (ℕ → HttpEndpoint) → List (ℕ × HttpCalls) → List WatcherResponse → Type 0
AllAnswer es [] [] = Unit {0}
AllAnswer es [] (x ∷ xs) = ⊥
AllAnswer es ((i, c) ∷ l) [] = ⊥
AllAnswer es ((i, c) ∷ l) (x ∷ xs) = IsAnswer (es i) c x × AllAnswer es l xs

-- The manager of endpoint `i` after the executions.
abbrev pub managers_after : ℕ → List (ℕ × HttpCalls) → DnsPolicyManager → DnsPolicyManager
managers_after i [] m = m
managers_after i ((j, c) ∷ l) m = managers_after i l (if j == i then manager_after c m else m)

-- What an execution leaves and sends.
record Leaves (e : HttpEndpoint) (m : DnsPolicyManager) (c : HttpCalls) (s : HttpStep)
    : Type 0 where
  response : WatcherResponse
  sends : s.sent ≡ response ∷ []
  answers : IsAnswer e c response
  leaves : s.endpoint ≡ record e { dns_mgr = some (manager_after c m) }

execute_http-One :
    (c : HttpCalls) (e : HttpEndpoint) (u : HttpUrl) (m : DnsPolicyManager)
    → IsReady (task e) e u m
    → Finishes (execute_http (task e) c e) λ s.
      One
        (λ x.
          (x.task_id ≡ e.id)
          × (x.watcher_id ≡ e.watcher_id)
          × (x.url ≡ u.text)
          × (x.err ≡ failure_of c)
          × (x.err ≡ none → is_some x.payload ≡ true))
        s.sent
      × (s.endpoint ≡ record e { dns_mgr = some (manager_after c m) })
unfolding execute_http
execute_http-One c e u m ready =
    ground (arith, ready.has_url, ready.has_client, ready.has_manager, ready.has_chan)

One-value :
    (P : WatcherResponse → Type 0) (l : List WatcherResponse)
    → One P l
    → (x : WatcherResponse) × (l ≡ x ∷ []) × P x
One-value P [] h = absurd h
One-value P (x ∷ []) h = (x, refl, h)
One-value P (x ∷ y ∷ l) h = absurd h

execute_http-Leaves :
    (c : HttpCalls) (e : HttpEndpoint) (u : HttpUrl) (m : DnsPolicyManager)
    → IsReady (task e) e u m
    → (s : HttpStep) × (execute_http (task e) c e ≡ finishes s) × Leaves e m c s
execute_http-Leaves c e u m ready =
    let (s, run, made) = Finishes-value _ _ (execute_http-One c e u m ready) in
    let (x, sends, is) = One-value _ s.sent made.0 in
    (
      s,
      run,
      record {
        response = x;
        sends = sends;
        answers = record {
          of_task = is.0;
          of_watcher = is.1;
          at_url = λ v has_url. ground (arith, is.2, ready.has_url);
          failed = is.3;
          has_payload = is.4;
        };
        leaves = made.1;
      },
    )

-- The endpoints are those that are given, but for the managers.
IsGiven : (ℕ → HttpEndpoint) → (ℕ → DnsPolicyManager) → (ℕ → HttpEndpoint) → Type 0
IsGiven es ms now = (i : ℕ) → now i ≡ record (es i) { dns_mgr = some (ms i) }

module _ (es : ℕ → HttpEndpoint) (us : ℕ → HttpUrl) (ns : ℕ → DnsPolicyManager)
    (ready : (i : ℕ) → IsReady (task (es i)) (es i) (us i) (ns i)) where
  IsGiven-IsReady :
      (ms : ℕ → DnsPolicyManager) (i : ℕ)
      → IsReady (task (es i)) (record (es i) { dns_mgr = some (ms i) }) (us i) (ms i)
  IsGiven-IsReady ms i = record {
    has_url = (ready i).has_url;
    has_client = (ready i).has_client;
    has_manager = refl;
    has_chan = (ready i).has_chan;
  }

  IsGiven-updated :
      (ms : ℕ → DnsPolicyManager) (now : ℕ → HttpEndpoint) (i : ℕ) (e : HttpEndpoint)
      (m : DnsPolicyManager)
      → IsGiven es ms now
      → e ≡ record (es i) { dns_mgr = some m }
      → IsGiven es (updated i m ms) (updated i e now)
  unfolding IsGiven
  IsGiven-updated ms now i e m given same j = ground (arith, given j)

  updated_manager :
      (ms : ℕ → DnsPolicyManager) (i j : ℕ) (f : DnsPolicyManager → DnsPolicyManager)
      → updated i (f (ms i)) ms j ≡ (if i == j then f (ms j) else ms j)
  updated_manager ms i j f = ground arith

  answers_from :
      (l : List (ℕ × HttpCalls)) (ms : ℕ → DnsPolicyManager) (now : ℕ → HttpEndpoint)
      → IsGiven es ms now
      → Finishes
          (execute_all l now)
          λ q. AllAnswer es l q.1 × ((i : ℕ) → (q.0 i).dns_mgr ≡ some (managers_after i l (ms i)))
  unfolding execute_all IsGiven
  answers_from [] ms now given = (tt, λ i. ap (λ e. e.dns_mgr) (given i))
  answers_from ((i, c) ∷ l) ms now given =
      let (s, run, left) =
        execute_http-Leaves c (record (es i) { dns_mgr = some (ms i) }) (us i) (ms i)
          (IsGiven-IsReady ms i) in
      let m = manager_after c (ms i) in
      let runs : execute_http (task (now i)) c (now i) ≡ finishes s = rw (given i) run in
      rw runs (
        Finishes-bind _ _ (execute_all l (updated i s.endpoint now)) _
          (answers_from l (updated i m ms) (updated i s.endpoint now)
            (IsGiven-updated ms now i s.endpoint m given left.leaves))
          (λ q h. (
            rw left.sends (
              record {
                of_task = left.answers.of_task;
                of_watcher = left.answers.of_watcher;
                at_url = left.answers.at_url;
                failed = left.answers.failed;
                has_payload = left.answers.has_payload;
              },
              h.0,
            ),
            λ j.
                h.1 j
                ∙ ap (λ x. some (managers_after j l x)) (updated_manager ms i j (manager_after c)),
          )))

  -- Let the endpoints be ready, and let their tasks be executed in any order, whatever the library
  -- gives to each execution. All executions return. Each sends one response, in the order of the
  -- executions, that names the endpoint, its watcher and its URL and has a payload or the error; and
  -- the guard rail of each endpoint observes the results of that endpoint's own requests, in their
  -- order.
  pub execute_all-AllAnswer :
      (l : List (ℕ × HttpCalls))
      → Finishes
          (execute_all l es)
          λ q. AllAnswer es l q.1 × ((i : ℕ) → (q.0 i).dns_mgr ≡ some (managers_after i l (ns i)))
  unfolding IsGiven
  execute_all-AllAnswer l = answers_from l ns es (λ i. ground (arith, (ready i).has_manager))
