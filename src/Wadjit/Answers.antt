-- ===== src/Wadjit/Answers.antt =====
-- From the executions of HTTP endpoints (task_http.go) through the channels of a Wadjit to the caller
-- (wadjit.go).
use wadjit.Prelude.{ℕ, ◌≡◌, true, false, List, ◌++◌}
use wadjit.Outcome.{finishes}
use wadjit.Dns.Manager.{DnsPolicyManager}
use wadjit.Response.Watcher.{WatcherResponse}
use wadjit.Http.Endpoint.{HttpUrl, HttpEndpoint}
use wadjit.Http.Execute.{HttpCalls, task}
use wadjit.Http.Answers.{IsReady}
use wadjit.Http.Sequence.{execute_all, AllAnswer, execute_all-AllAnswer}
use wadjit.Wadjit.Channels.{Channels}
use wadjit.Wadjit.Pump.{Reach}
use wadjit.Wadjit.Pump.Delivery.{Drains, can_go, Drains-delivers}

module _ (es : ℕ → HttpEndpoint) (us : ℕ → HttpUrl) (ns : ℕ → DnsPolicyManager)
    (ready : (i : ℕ) → IsReady (task (es i)) (es i) (us i) (ns i)) where
  -- Let the tasks of endpoints that are ready be executed in any order, and let the responses be
  -- submitted to the channels, of any capacity, in that order, while the goroutine and the caller go
  -- on between them in any way; let the goroutine run and its context not be canceled. Once the
  -- goroutine and the caller can go no further, the caller has taken exactly one response for each
  -- execution, in the order of the executions, which names its endpoint, watcher and URL and has a
  -- payload or the error.
  pub execute_all-Drains :
      (l : List (ℕ × HttpCalls)) (q : (ℕ → HttpEndpoint) × List WatcherResponse)
      → execute_all l es ≡ finishes q
      → (capacity : ℕ) (taken : List WatcherResponse) (c : Channels WatcherResponse)
      → Reach capacity q.1 taken c
      → c.running ≡ true
      → c.canceled ≡ false
      → (n : ℕ) (more : List WatcherResponse) (d : Channels WatcherResponse) → Drains c n more d
      → can_go d ≡ false
      → AllAnswer es l (taken ++ more)
  execute_all-Drains l q run capacity taken c reached running live n more d drains rest =
      let all = rw run at (execute_all-AllAnswer es us ns ready l) in
      rw ((Drains-delivers capacity q.1 taken c reached running live n more d drains).1 rest) all.0
