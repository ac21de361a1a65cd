-- ===== src/Wadjit/Endpoints/Adding.antt =====
-- `AddWatcher` (wadjit.go) through `Validate` and `start` (watcher.go) to `Initialize`, `Task` and
-- `Execute` (task_http.go).
use wadjit.Prelude.{
  ℕ, String, Bool, true, false, ◌≡◌, ◌↔◌, refl, sym, ap, ◌∙◌, Option, none, some, inl, inr, List,
  [], ◌∷◌, map, arith, Bool-cases,
}
use wadjit.Clock.{Time}
use wadjit.GoError.{GoError}
use wadjit.Run.{Run-cases, Returns-eq}
use wadjit.Dns.Policy.{DnsPolicy, TtlResolver}
use wadjit.Http.Endpoint.{HttpEndpoint, validate_http, initialize_http}
use wadjit.Http.Ready.{validate_http-initialize_http}
use wadjit.Watcher.Tasks.{start-each}
use wadjit.Watcher.{WatcherTask, Watcher, each, validate_watcher, start, field_errors}
use wadjit.Watcher.Each.{AllWell, each-map, each_sound}
use wadjit.Wadjit.Tasks.{AnyTask, http_task, other_task, with_default, apply_default_dns_policy}
use wadjit.Wadjit.Registry.{find}
use wadjit.Wadjit.Manager.{TaskManager, Wadjit, job, defaulted, add_watcher}
use wadjit.Wadjit.Removal.{add_watcher-find}
use wadjit.Wadjit.Endpoints.{RunsHttp, IsInitialized-Answers, AllRun, Starts, AllOthers}

module _ {U M : Type 0} (resolver : TtlResolver) (k : WatcherTask (AnyTask U))
    (tm : TaskManager M (AnyTask U)) (http : RunsHttp resolver k) (Can : U → Type 0)
    (Other : String → U → U → Type 0)
    (others : (id : String) (c : ℕ) (u : U)
      → Can u
      → (k.validate (other_task u)).1 ≡ none
      → Starts resolver Other k id c (other_task u)) where
  http-Starts :
      (id : String) (c : ℕ) (e : HttpEndpoint)
      → (k.validate (http_task e)).1 ≡ none
      → Starts resolver Other k id c (http_task e)
  http-Starts id c e h =
      let valid = (validate_http (http.xid e) e).0 in
      let checked = sym (ap (λ r. r.1) (http.validates e)) ∙ h in
      let ready =
        validate_http-initialize_http resolver (http.xid e) id (some c) e (http.xid_named e)
          checked in
      elim (Run-cases (initialize_http resolver id (some c) valid)) [
        | inl panicked ↦ absurd (rw panicked at ready)
        | inr (r, made) ↦
            let done = Returns-eq _ _ made ready in
            rw (http.validates e) (
              rw (http.initializes id (some c) valid r made)
                (IsInitialized-Answers resolver id c e r.0 done.1, done.0))
      ]

  abbrev initialized : String → ℕ → AnyTask U → AnyTask U × Option GoError
  initialized id c = k.initialize id (some c)

  all-Start :
      (id : String) (c : ℕ) (ts : List (AnyTask U))
      → AllOthers Can ts
      → AllWell k.validate ts
      → AllRun resolver Other id ts
          (map (λ t. (initialized id c t).0) (map (λ t. (k.validate t).0) ts))
        × AllWell (initialized id c) (map (λ t. (k.validate t).0) ts)
  all-Start id c [] can h = (tt, tt)
  all-Start id c (http_task e ∷ ts) can h =
      let first = http-Starts id c e h.0 in
      let rest = all-Start id c ts can h.1 in ((first.0, rest.0), (first.1, rest.1))
  all-Start id c (other_task u ∷ ts) can h =
      let first = others id c u can.0 h.0 in
      let rest = all-Start id c ts can.1 h.1 in ((first.0, rest.0), (first.1, rest.1))

  -- What `start` is given, if the watcher `g` is valid.
  abbrev validated : Watcher (AnyTask U) → Watcher (AnyTask U)
  validated g = record g { tasks = (each k.validate g.tasks (field_errors g)).0 }

  start-AllRun :
      (c : ℕ) (g : Watcher (AnyTask U))
      → AllOthers Can g.tasks
      → (validate_watcher k (some g)).1 ≡ none
      → AllRun resolver Other g.id g.tasks (start k (some c) (validated g)).0.tasks
        × ((start k (some c) (validated g)).1 ≡ none)
  unfolding validate_watcher
  start-AllRun c g can h =
      let all = all-Start g.id c g.tasks can (each_sound k.validate g.tasks (field_errors g) h).1 in
      let started = start-each k (some c) (validated g) in
      (
        rw started.0 (rw (each-map k.validate g.tasks (field_errors g)) all.0),
        started.1.1 (refl, rw (each-map k.validate g.tasks (field_errors g)) all.1),
      )

  default-id :
      (has : Bool) (policy : DnsPolicy) (x : Watcher (AnyTask U))
      → (apply_default_dns_policy has policy x).id ≡ x.id
  unfolding apply_default_dns_policy
  default-id has policy x = ground arith

  -- With its default policy a watcher has the same tasks of other types.
  default-AllOthers :
      (policy : DnsPolicy) (ts : List (AnyTask U))
      → AllOthers Can ts
      → AllOthers Can (map (with_default policy) ts)
  unfolding with_default
  default-AllOthers policy [] can = tt
  default-AllOthers policy (http_task e ∷ ts) can =
      let rest = default-AllOthers policy ts can in
      elim (Bool-cases e.dns_policy_set) [ inl own ↦ rw own rest | inr unset ↦ rw unset rest ]
  default-AllOthers policy (other_task u ∷ ts) can = (can.0, default-AllOthers policy ts can.1)

  watcher-AllOthers :
      (has : Bool) (policy : DnsPolicy) (x : Watcher (AnyTask U))
      → AllOthers Can x.tasks
      → AllOthers Can (apply_default_dns_policy has policy x).tasks
  unfolding apply_default_dns_policy
  watcher-AllOthers true policy x can = default-AllOthers policy x.tasks can
  watcher-AllOthers false policy x can = can

  added-AllRun :
      (now : Time) (c : ℕ) (x g : Watcher (AnyTask U)) (w : Wadjit U M)
      → w.resp_gather_chan ≡ some c
      → defaulted k tm w (some x) ≡ some g
      → AllOthers Can g.tasks
      → (validate_watcher k (some g)).1 ≡ none
      → find g.id w.watchers ≡ none
      → (y : Watcher (AnyTask U)) × (find g.id (add_watcher k tm now (some x) w).0.watchers
          ≡ some y)
        × AllRun resolver Other g.id g.tasks y.tasks
        × (((add_watcher k tm now (some x) w).1 ≡ none)
            ↔ ((tm.schedule_job (job now y) w.task_manager).1 ≡ none))
  unfolding validate_watcher
  added-AllRun now c x g w chan given can valid new =
      let accepted : validate_watcher k (defaulted k tm w (some x)) ≡ (some (validated g), none) =
        rw (given, valid) refl in
      let found = add_watcher-find k tm now x (validated g) w accepted new in
      let started = start-AllRun c g can valid in
      (
        (start k w.resp_gather_chan (validated g)).0,
        found.0,
        rw chan started.0,
        (λ h. (found.1.0 h).1, λ h. found.1.1 (rw chan started.1, h)),
      )

  -- Let the methods of HTTP tasks be those of `HTTPEndpoint`, and let `AddWatcher` be called with a
  -- watcher that is valid once it has the default policy, and whose identifier is not registered.
  -- Afterwards a watcher is registered under it whose tasks are those given, each HTTP endpoint ready:
  -- whatever the HTTP library gives to an execution, it finishes with one response that names the
  -- watcher and the endpoint, and has a payload or the error, and the result is observed by the guard
  -- rail of the endpoint's own manager, made of its policy or of the default. `AddWatcher` reports no
  -- error exactly if the job can be scheduled.
  pub add_watcher-AllRun :
      (now : Time) (c : ℕ) (x : Watcher (AnyTask U)) (w : Wadjit U M)
      → w.resp_gather_chan ≡ some c
      → AllOthers Can x.tasks
      → (validate_watcher k (defaulted k tm w (some x))).1 ≡ none
      → find x.id w.watchers ≡ none
      → (y : Watcher (AnyTask U)) × (find x.id (add_watcher k tm now (some x) w).0.watchers
          ≡ some y)
        × AllRun resolver Other x.id
            (apply_default_dns_policy w.has_default_dns_policy w.default_dns_policy x).tasks
            y.tasks
        × (((add_watcher k tm now (some x) w).1 ≡ none)
            ↔ ((tm.schedule_job (job now y) w.task_manager).1 ≡ none))
  unfolding defaulted
  add_watcher-AllRun now c x w chan can valid new =
      let g = apply_default_dns_policy w.has_default_dns_policy w.default_dns_policy x in
      let same = default-id w.has_default_dns_policy w.default_dns_policy x in
      let can' = watcher-AllOthers w.has_default_dns_policy w.default_dns_policy x can in
      rw same at (added-AllRun now c x g w chan refl can' valid (rw same new))
