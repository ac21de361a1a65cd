-- ===== src/Examples/Composition.antt =====
-- A Wadjit with a default policy to which a watcher of an HTTP endpoint and of two WebSocket endpoints is
-- added.
use wadjit.Prelude.{
  ℕ, String, ◌≡◌, ◌↔◌, ◌⊎◌, ap, refl, true, Option, none, some, List, [], ◌∷◌, pos, inl,
}
use wadjit.GoError.{GoError}
use wadjit.Outcome.{Outcome, finishes, crashes, blocks}
use wadjit.Run.{Run, returns, panics}
use wadjit.Dns.Policy.{ttl_mode, validate}
use wadjit.Http.Endpoint.{HttpEndpoint, new_http_endpoint, validate_http, initialize_http}
use wadjit.Ws.Endpoint.{
  WsEndpoint, WsStep, one_hit_text, persistent_json_rpc, new_ws_endpoint, validate_ws,
}
use wadjit.Ws.Connection.{Dialed, initialize_ws}
use wadjit.Watcher.{WatcherTask, Watcher, is_open, validate_watcher}
use wadjit.Wadjit.Options.{apply_options}
use wadjit.Wadjit.Tasks.{AnyTask, http_task, other_task, apply_default_dns_policy}
use wadjit.Wadjit.Registry.{find}
use wadjit.Wadjit.Manager.{TaskManager, Wadjit, new, job, defaulted, add_watcher}
use wadjit.Wadjit.Endpoints.{RunsHttp, AllRun}
use wadjit.Wadjit.Sockets.{RunsSockets, Added, add_watcher-Added}
use wadjit.Examples.{network, policy}
use wadjit.Examples.Endpoints.{http_url}
use wadjit.Examples.Sockets.{rpc, dialed}

abbrev Task : Type 0
Task = AnyTask (WsEndpoint ℕ)

abbrev dials : Option String → Dialed ⊎ GoError
dials url = inl dialed

-- A task whose initialisation does not return is left alone here.
abbrev http_done : HttpEndpoint → Run (HttpEndpoint × Option GoError) → Task × Option GoError
http_done e (returns r) = (http_task r.0, r.1)
http_done e panics = (http_task e, none)

abbrev socket_done : WsEndpoint ℕ → Outcome (WsStep ℕ) → Task × Option GoError
socket_done e (finishes s) = (other_task s.endpoint, s.err)
socket_done e crashes = (other_task e, none)
socket_done e blocks = (other_task e, none)

abbrev initialize_any : String → Option ℕ → Task → Task × Option GoError
initialize_any id c (http_task e) = http_done e (initialize_http network id c e)
initialize_any id c (other_task e) = socket_done e (initialize_ws (dials e.url) id c e)

abbrev validate_any : Task → Task × Option GoError
validate_any (http_task e) = (http_task (validate_http "x" e).0, (validate_http "x" e).1)
validate_any (other_task e) = (other_task (validate_ws "y" e).0, (validate_ws "y" e).1)

abbrev tasks : WatcherTask Task
tasks = record { close = λ t. (t, none); initialize = initialize_any; validate = validate_any }

tasks-RunsHttp : RunsHttp network tasks
tasks-RunsHttp = record {
  xid = λ e. "x";
  xid_named = λ e. refl;
  validates = λ e. refl;
  initializes = λ id c e r h. ap (http_done e) h;
}

tasks-RunsSockets : RunsSockets dials tasks
tasks-RunsSockets = record {
  xid = λ e. "y";
  validates = λ e. refl;
  initializes = λ id c e s h. ap (socket_done e) h;
}

-- A task manager that keeps the identifiers of its jobs.
abbrev jobs : TaskManager (List String) Task
jobs = record {
  schedule_job = λ j m. (j.id ∷ m, none);
  remove_job = λ id m. (m, none);
  pause_job = λ id m. (m, none);
  resume_job = λ id m. (m, none);
  stop = λ m. [];
}

abbrev watcher : Watcher Task
watcher = record {
  id = "a";
  cadence = pos 5;
  tasks =
      http_task (new_http_endpoint (policy ttl_mode (pos 9)) "x" (some http_url) "GET" [])
      ∷ other_task (new_ws_endpoint (some "ws://a.example/") none persistent_json_rpc (7 ∷ []) "t")
      ∷ other_task (new_ws_endpoint (some "ws://b.example/") none one_hit_text (8 ∷ []) "")
      ∷ [];
  done_chan = some is_open;
}

abbrev no_watchers : Wadjit (WsEndpoint ℕ) (List String)
no_watchers = new {O = ℕ} {L = ℕ} (λ o. []) 3 (apply_options 0 (policy ttl_mode (pos 0)) [])

abbrev with_policy : Wadjit (WsEndpoint ℕ) (List String)
with_policy = record no_watchers {
  default_dns_policy = policy ttl_mode (pos 0);
  has_default_dns_policy = true;
}

add_watcher-Added_example :
    (y : Watcher Task) × (find "a"
        (add_watcher tasks jobs (pos 1) (some watcher) with_policy).0.watchers
      ≡ some y)
    × AllRun network
        (Added rpc)
        "a"
        (apply_default_dns_policy true (policy ttl_mode (pos 0)) watcher).tasks
        y.tasks
    × (((add_watcher tasks jobs (pos 1) (some watcher) with_policy).1 ≡ none)
        ↔ ((jobs.schedule_job (job (pos 1) y) with_policy.task_manager).1 ≡ none))
unfolding find new new_http_endpoint validate_http validate_ws validate defaulted
    apply_default_dns_policy validate_watcher
add_watcher-Added_example =
    add_watcher-Added network rpc dials tasks jobs tasks-RunsHttp tasks-RunsSockets (pos 1) 3
      watcher with_policy refl
      (
        record { free = refl; no_conn = refl; can_dial = refl },
        (record { free = refl; no_conn = refl; can_dial = refl }, tt),
      )
      refl refl
