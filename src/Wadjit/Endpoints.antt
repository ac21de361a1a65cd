-- ===== src/Wadjit/Endpoints.antt =====
-- The HTTP endpoints that a Wadjit runs: what they answer once they are initialised (task_http.go), and
-- the tasks of a watcher before and after it is added.
pub mod Adding
use wadjit.Prelude.{
  ℕ, String, Bool, true, false, ◌≡◌, ◌↔◌, refl, sym, ap, ◌∙◌, Option, none, some, inl, inr, List,
  [], ◌∷◌, map, arith, is_some, str_eq, Bool-cases,
}
use wadjit.Clock.{Time}
use wadjit.GoError.{GoError}
use wadjit.Outcome.{Finishes}
use wadjit.Run.{returns, Run-cases, Returns-eq}
use wadjit.Dns.Policy.{DnsPolicy, TtlResolver}
use wadjit.Dns.Manager.{new_dns_policy_manager}
use wadjit.Http.Endpoint.{HttpUrl, HttpEndpoint, validate_http, initialize_http}
use wadjit.Http.Execute.{HttpCalls, task, execute_http}
use wadjit.Http.Ready.{IsInitialized, validate_http-initialize_http}
use wadjit.Http.Answers.{One, IsReady, failure_of, manager_after, execute_http-answer}
use wadjit.Watcher.Tasks.{start-each}
use wadjit.Watcher.{WatcherTask, Watcher, each, validate_watcher, start, chan_errors, field_errors}
use wadjit.Watcher.Each.{AllWell, each-map, each_sound}
use wadjit.Wadjit.Tasks.{AnyTask, http_task, other_task, with_default, apply_default_dns_policy}
use wadjit.Wadjit.Registry.{find}
use wadjit.Wadjit.Manager.{TaskManager, Wadjit, job, defaulted, add_watcher}
use wadjit.Wadjit.Removal.{add_watcher-find}

-- The interface's methods, at an HTTP endpoint, are those of `HTTPEndpoint`.
pub record RunsHttp {U : Type 0} (resolver : TtlResolver) (k : WatcherTask (AnyTask U))
    : Type 0 where
  pub xid : HttpEndpoint → String
  pub xid_named : (e : HttpEndpoint) → str_eq (xid e) "" ≡ false
  pub validates :
      (e : HttpEndpoint)
      → k.validate (http_task e)
        ≡ (http_task (validate_http (xid e) e).0, (validate_http (xid e) e).1)
  pub initializes :
      (id : String) (c : Option ℕ) (e : HttpEndpoint) (r : HttpEndpoint × Option GoError)
      → initialize_http resolver id c e ≡ returns r
      → k.initialize id c (http_task e) ≡ (http_task r.0, r.1)

-- Whatever the HTTP library gives, an execution of the endpoint's task finishes with one response, that
-- names the watcher and the endpoint, has a payload or the error, and the manager, which was new,
-- observes the result.
abbrev pub Answers : TtlResolver → String → HttpEndpoint → HttpEndpoint → Type 0
Answers resolver id before e =
    (c : HttpCalls)
    → Finishes (execute_http (task e) c e) λ s.
      One
        (λ x.
          (x.task_id ≡ e.id)
          × (x.watcher_id ≡ id)
          × (x.err ≡ failure_of c)
          × (x.err ≡ none → is_some x.payload ≡ true))
        s.sent
      × (s.endpoint.dns_mgr
          ≡ some
              (manager_after c (new_dns_policy_manager resolver before.dns_policy before.hooked)))

some_of {ℓ} : {A : Type ℓ} (o : Option A) → is_some o ≡ true → (a : A) × (o ≡ some a)
some_of none h = cc h
some_of (some a) h = (a, refl)

module _ (resolver : TtlResolver) (id : String) where
  IsReady-Answers :
      (before e : HttpEndpoint) (u : HttpUrl)
      → IsReady (task e) e u (new_dns_policy_manager resolver before.dns_policy before.hooked)
      → e.watcher_id ≡ id
      → Answers resolver id before e
  IsReady-Answers before e u ready named c = ground (
    arith,
    execute_http-answer (task e) c e u
        (new_dns_policy_manager resolver before.dns_policy before.hooked) ready,
  )

  pub IsInitialized-Answers :
      (c : ℕ) (before e : HttpEndpoint)
      → IsInitialized resolver id (some c) before e
      → Answers resolver id before e
  IsInitialized-Answers c before e i =
      let (u, has_url) = some_of e.url i.has_url in
      IsReady-Answers before e u
        (record {
          has_url = has_url;
          has_client = i.has_client;
          has_manager = i.has_manager;
          has_chan = rw i.answers_on refl;
        })
        i.watched

module _ {U : Type 0} (resolver : TtlResolver) (Other : String → U → U → Type 0) where
  -- A task with its default policy, and the task that is registered for it. `Other` says of a task of
  -- another type what it is after it was added.
  abbrev pub Runs : String → AnyTask U → AnyTask U → Type 0
  Runs id (http_task before) (http_task e) = Answers resolver id before e
  Runs id (http_task before) (other_task u) = ⊥
  Runs id (other_task u) (http_task e) = ⊥
  Runs id (other_task u) (other_task v) = Other id u v

  abbrev pub AllRun : String → List (AnyTask U) → List (AnyTask U) → Type 0
  AllRun id [] [] = Unit {0}
  AllRun id [] (t ∷ ts) = ⊥
  AllRun id (b ∷ bs) [] = ⊥
  AllRun id (b ∷ bs) (t ∷ ts) = Runs id b t × AllRun id bs ts

  -- A task that is validated and then initialised runs, and is initialised with no error.
  abbrev pub Starts : WatcherTask (AnyTask U) → String → ℕ → AnyTask U → Type 0
  Starts k id c t =
      Runs id t (k.initialize id (some c) (k.validate t).0).0
      × ((k.initialize id (some c) (k.validate t).0).1 ≡ none)

-- The tasks of other types have the property.
abbrev pub AllOthers : {U : Type 0} → (U → Type 0) → List (AnyTask U) → Type 0
AllOthers Can [] = Unit {0}
AllOthers Can (http_task e ∷ ts) = AllOthers Can ts
AllOthers Can (other_task u ∷ ts) = Can u × AllOthers Can ts
