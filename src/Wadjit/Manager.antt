-- ===== src/Wadjit/Manager.antt =====
-- `Wadjit` and its methods but `Close` (wadjit.go). The watchers that `AddWatcher` gets have no nil task.
use wadjit.Prelude.{ℕ, String, Bool, true, false, Option, none, some, List, [], ◌∷◌}
use wadjit.Clock.{Time, Duration, add}
use wadjit.GoError.{GoError, message, wrapped, formatted, join}
use wadjit.Run.{Run, returns, ◌>>=◌}
use wadjit.Dns.Policy.{DnsPolicy}
use wadjit.Watcher.{WatcherTask, Watcher, validate_watcher, close_watcher, start}
use wadjit.Wadjit.Options.{Options}
use wadjit.Wadjit.Tasks.{AnyTask, apply_default_dns_policy}
use wadjit.Wadjit.Registry.{Registry, find, remove, put, ids}

-- `taskman.Job`; its tasks are those of the watcher.
pub record Job (T : Type 0) : Type 0 where
  pub id : String
  pub cadence : Duration
  pub next_exec : Time
  pub tasks : List T

-- The task manager, of a state `M`.
pub record TaskManager (M T : Type 0) : Type 0 where
  pub schedule_job : Job T → M → M × Option GoError
  pub remove_job : String → M → M × Option GoError
  pub pause_job : String → M → M × Option GoError
  pub resume_job : String → M → M × Option GoError
  pub stop : M → M

-- The channels are numbers. Whether each is open, and whether the context is canceled, is kept here;
-- what is in them is the matter of the pump.
pub record Wadjit (U M : Type 0) : Type 0 where
  pub watchers : Registry (Watcher (AnyTask U))
  pub task_manager : M
  pub resp_gather_chan : Option ℕ
  pub gather_open : Bool
  pub export_open : Bool
  pub default_dns_policy : DnsPolicy
  pub has_default_dns_policy : Bool
  pub canceled : Bool
  pub closed_once : Bool
  pub close_err : Option GoError

unfoldable pub new : {U M O L : Type 0} → (List O → M) → ℕ → Options O L → Wadjit U M
new make_manager chan options = record {
  watchers = [];
  task_manager = make_manager options.taskman_options;
  resp_gather_chan = some chan;
  gather_open = true;
  export_open = true;
  default_dns_policy = options.default_dns_policy;
  has_default_dns_policy = options.has_default_dns_policy;
  canceled = false;
  closed_once = false;
  close_err = none;
}

abbrev pub job : {T : Type 0} → Time → Watcher T → Job T
job now w = record {
  id = w.id;
  cadence = w.cadence;
  next_exec = add now w.cadence;
  tasks = w.tasks;
}

module _ {U M : Type 0} (k : WatcherTask (AnyTask U)) (tm : TaskManager M (AnyTask U)) where
  unfoldable pub schedule : Time → Watcher (AnyTask U) → Wadjit U M → Wadjit U M × Option GoError
  unfolding put
  schedule now x w =
      let (m, err) = tm.schedule_job (job now x) w.task_manager in
      elim err [
        | some e ↦ (record w { task_manager = m }, some (formatted "error scheduling job" e))
        | none ↦ (record w { task_manager = m; watchers = put x.id x w.watchers }, none)
      ]

  -- The map has the watcher from here on, and sees what `start` does to it.
  unfoldable pub add_new : Time → Watcher (AnyTask U) → Wadjit U M → Wadjit U M × Option GoError
  unfolding schedule put start
  add_new now x w =
      let (started, err) = start k w.resp_gather_chan x in
      let w' : Wadjit U M = record w { watchers = put x.id started w.watchers } in
      elim err [
        | some e ↦ (w', some (formatted "error starting watcher" e))
        | none ↦ schedule now started w'
      ]

  unfoldable pub add_valid : Time → Watcher (AnyTask U) → Wadjit U M → Wadjit U M × Option GoError
  unfolding find add_new
  add_valid now x w = elim (find x.id w.watchers) [
    | some other ↦ (w, some (message "watcher with this ID already exists"))
    | none ↦ add_new now x w
  ]

  unfoldable pub add_validated :
      Time
      → Option (Watcher (AnyTask U)) × Option GoError
      → Wadjit U M
      → Wadjit U M × Option GoError
  unfolding add_valid
  add_validated now (x, some e) w = (w, some (formatted "error validating watcher" e))
  add_validated now (none, none) w = (w, none)
  add_validated now (some x, none) w = add_valid now x w

  unfoldable pub defaulted :
      Wadjit U M → Option (Watcher (AnyTask U)) → Option (Watcher (AnyTask U))
  unfolding apply_default_dns_policy
  defaulted w none = none
  defaulted w (some x) =
      some (apply_default_dns_policy w.has_default_dns_policy w.default_dns_policy x)

  unfoldable pub add_watcher :
      Time → Option (Watcher (AnyTask U)) → Wadjit U M → Wadjit U M × Option GoError
  unfolding defaulted validate_watcher add_validated
  add_watcher now watcher w = add_validated now (validate_watcher k (defaulted w watcher)) w

  unfoldable pub pause_watcher : String → Wadjit U M → Wadjit U M × Option GoError
  pause_watcher id w =
      let (m, err) = tm.pause_job id w.task_manager in (record w { task_manager = m }, err)

  unfoldable pub resume_watcher : String → Wadjit U M → Wadjit U M × Option GoError
  resume_watcher id w =
      let (m, err) = tm.resume_job id w.task_manager in (record w { task_manager = m }, err)

  remove_job : String → Wadjit U M → Wadjit U M × Option GoError
  remove_job id w =
      let (m, err) = tm.remove_job id w.task_manager in
      (
        record w { task_manager = m },
        elim err [ some e ↦ some (wrapped "error removing watcher" e) | none ↦ none ],
      )

  -- The error of closing the watcher ends the call.
  closed : String → Wadjit U M → Option GoError → Wadjit U M × Option GoError
  unfolding remove_job
  closed id w (some e) = (w, some e)
  closed id w none = remove_job id w

  unfoldable pub remove_watcher : String → Wadjit U M → Run (Wadjit U M × Option GoError)
  unfolding find remove close_watcher closed
  remove_watcher id w = elim (find id w.watchers) [
    | none ↦ returns (w, some (message "watcher with this ID not found"))
    | some x ↦ do
      r ← close_watcher k x
      returns (closed id (record w { watchers = remove id w.watchers }) r.1)
  ]

  join_wrapped : Option GoError → Option GoError → Option GoError
  unfolding join
  join_wrapped errs none = errs
  join_wrapped errs (some e) = join errs (some (wrapped "error removing watcher" e))

  unfoldable pub remove_each :
      (Option GoError → Option GoError → Option GoError)
      → List String
      → Option GoError
      → Wadjit U M
      → Run (Wadjit U M × Option GoError)
  unfolding remove_watcher
  remove_each f [] errs w = returns (w, errs)
  remove_each f (id ∷ l) errs w = do r ← remove_watcher id w; remove_each f l (f errs r.1) r.0

  unfoldable pub clear : Wadjit U M → Run (Wadjit U M × Option GoError)
  unfolding remove_each join_wrapped
  clear w = remove_each join_wrapped (ids w.watchers) none w
