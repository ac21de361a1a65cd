-- ===== src/Examples/Answers.antt =====
-- Two HTTP endpoints, the first of which fails and the second of which is answered, and channels with no
-- room.
use wadjit.Prelude.{ℕ, ◌≡◌, refl, none, some, List, [], ◌∷◌, inl, pos, ◌==◌, ◌-◌, if◌then◌else◌}
use wadjit.Outcome.{Outcome, finishes, crashes, blocks, Finishes}
use wadjit.Dns.Manager.{DnsPolicyManager}
use wadjit.Response.Watcher.{WatcherResponse}
use wadjit.Http.Endpoint.{HttpUrl, HttpEndpoint, new_http_endpoint}
use wadjit.Http.Execute.{HttpCalls, task, execute_http}
use wadjit.Http.Answers.{IsReady}
use wadjit.Http.Sequence.{execute_all, AllAnswer, managers_after, execute_all-AllAnswer}
use wadjit.Wadjit.Channels
use wadjit.Wadjit.Channels.{Channels, listen_for_responses, hand_over, submit}
use wadjit.Wadjit.Pump
use wadjit.Wadjit.Pump.Delivery
use wadjit.Wadjit.Answers.{execute_all-Drains}
use wadjit.Examples.Endpoints.{http_url, expired, endpoint, calls}

abbrev endpoints : ℕ → HttpEndpoint
endpoints i = record endpoint { id = if i == 0 then "t" else "u" }

abbrev urls : ℕ → HttpUrl
urls i = http_url

abbrev managers : ℕ → DnsPolicyManager
managers i = expired

endpoints-IsReady : (i : ℕ) → IsReady (task (endpoints i)) (endpoints i) (urls i) (managers i)
unfolding new_http_endpoint
endpoints-IsReady i = record {
  has_url = refl;
  has_client = refl;
  has_manager = refl;
  has_chan = refl;
}

abbrev answered_calls : HttpCalls
answered_calls = record calls {
  result = inl (record {
    status_code = pos 200;
    header = [];
    content_length = pos 0;
    body = none;
    decision = none;
  });
}

abbrev executions : List (ℕ × HttpCalls)
executions = (0, calls) ∷ (1, answered_calls) ∷ []

abbrev Executed : Type 0
Executed = (ℕ → HttpEndpoint) × List WatcherResponse

abbrev value_or {ℓ} : {A : Type ℓ} → A → Outcome A → A
value_or d (finishes a) = a
value_or d crashes = d
value_or d blocks = d

abbrev executed : Executed
executed = value_or (endpoints, []) (execute_all executions endpoints)

execute_all-AllAnswer_example : Finishes (execute_all executions endpoints) λ q.
    AllAnswer endpoints executions q.1
    × ((i : ℕ) → (q.0 i).dns_mgr ≡ some (managers_after i executions (managers i)))
execute_all-AllAnswer_example =
    execute_all-AllAnswer endpoints urls managers endpoints-IsReady executions

runs : execute_all executions endpoints ≡ finishes executed
unfolding execute_all execute_http new_http_endpoint
runs = refl

-- The caller has taken the first response, and the goroutine holds the second.
one_taken :
    {R : Type 0} (a b : R)
    → Pump.Reach 0 (a ∷ b ∷ []) (a ∷ []) (record (Channels.empty 0) { held = some b })
unfolding listen_for_responses submit hand_over
one_taken a b =
    Pump.submits_direct b
      (Pump.takes_direct a (Pump.submits_direct a Pump.here refl refl refl) refl) refl refl refl

abbrev no_response : WatcherResponse
no_response = record { task_id = ""; watcher_id = ""; url = ""; err = none; payload = none }

abbrev response : ℕ → List WatcherResponse → WatcherResponse
response n [] = no_response
response n (r ∷ l) = let later = response (n - 1) l in if n == 0 then r else later

abbrev first : WatcherResponse
first = response 0 executed.1

abbrev second : WatcherResponse
second = response 1 executed.1

execute_all-Drains_example : AllAnswer endpoints executions (first ∷ second ∷ [])
unfolding execute_all execute_http new_http_endpoint listen_for_responses hand_over
execute_all-Drains_example =
    execute_all-Drains endpoints urls managers endpoints-IsReady executions executed runs 0
      (first ∷ []) (record (Channels.empty 0) { held = some second }) (one_taken first second) refl
      refl 1 (second ∷ []) (Channels.empty 0) (Delivery.takes_direct second Delivery.stays refl)
      refl
