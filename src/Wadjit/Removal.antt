-- ===== src/Wadjit/Removal.antt =====
-- What `AddWatcher`, `RemoveWatcher` and `Close` of a `Wadjit` leave.
use wadjit.Prelude.{
  String, ◌≡◌, ◌↔◌, true, none, some, arith, is_some, str_eq, eq_iff, if◌then◌else◌,
}
use wadjit.Clock.{Time}
use wadjit.GoError.{GoError}
use wadjit.Run.{Returns}
use wadjit.Watcher.{WatcherTask, Watcher, each, validate_watcher, close_watcher, start}
use wadjit.Wadjit.Tasks.{AnyTask}
use wadjit.Wadjit.Registry.{Registry, find, put}
use wadjit.Wadjit.Manager.{
  TaskManager, Wadjit, job, add_new, schedule, add_valid, add_validated, defaulted, add_watcher,
  remove_watcher,
}
use wadjit.Wadjit.Entries.{IsRegistry, find-IsRegistry, find-remove, find-put}

module _ {U M : Type 0} (k : WatcherTask (AnyTask U)) (tm : TaskManager M (AnyTask U)) where
  -- Let the registry be in order. `RemoveWatcher` of a registered watcher returns; the watcher is gone
  -- and the others stay. If closing its tasks reports no error, its job is removed; otherwise that
  -- error is returned and the task manager is left as it was, with the job.
  pub remove_watcher-find :
      (id : String) (x : Watcher (AnyTask U)) (w : Wadjit U M)
      → IsRegistry w.watchers
      → find id w.watchers ≡ some x
      → Returns (remove_watcher k tm id w) λ r.
        ((other : String)
          → find other r.0.watchers ≡ (if str_eq id other then none else find other w.watchers))
        × ((each k.close x.tasks none).1 ≡ none
            → r.0.task_manager ≡ (tm.remove_job id w.task_manager).0)
        × (is_some (each k.close x.tasks none).1 ≡ true
            → (r.1 ≡ (each k.close x.tasks none).1) × (r.0.task_manager ≡ w.task_manager))
  unfolding remove_watcher close_watcher
  remove_watcher-find id x w r f = ground (
    arith,
    find-IsRegistry id w.watchers x r f,
    (λ (other : String). find-remove other id w.watchers),
  )

  add_valid-find :
      (now : Time) (v : Watcher (AnyTask U)) (w : Wadjit U M)
      → find v.id w.watchers ≡ none
      → (find v.id (add_valid k tm now v w).0.watchers ≡ some (start k w.resp_gather_chan v).0)
        × (((add_valid k tm now v w).1 ≡ none)
            ↔ ((start k w.resp_gather_chan v).1 ≡ none)
              × ((tm.schedule_job (job now (start k w.resp_gather_chan v).0) w.task_manager).1
                  ≡ none))
  unfolding add_valid add_new schedule start
  add_valid-find now v w f =
      let s = (start k w.resp_gather_chan v).0 in
      ground (
        arith,
        find-put v.id v.id s w.watchers,
        find-put v.id v.id s (put v.id s w.watchers),
        eq_iff v.id v.id,
      )

  -- Let `AddWatcher` be called with a watcher that is valid, with the default policy applied, and
  -- whose identifier is not registered. Afterwards it is registered as `start` left it, whether or not
  -- starting it and scheduling its job succeed; `AddWatcher` reports no error exactly if both do.
  pub add_watcher-find :
      (now : Time) (x v : Watcher (AnyTask U)) (w : Wadjit U M)
      → validate_watcher k (defaulted k tm w (some x)) ≡ (some v, none)
      → find v.id w.watchers ≡ none
      → (find v.id (add_watcher k tm now (some x) w).0.watchers
          ≡ some (start k w.resp_gather_chan v).0)
        × (((add_watcher k tm now (some x) w).1 ≡ none)
            ↔ ((start k w.resp_gather_chan v).1 ≡ none)
              × ((tm.schedule_job (job now (start k w.resp_gather_chan v).0) w.task_manager).1
                  ≡ none))
  unfolding add_watcher add_validated
  add_watcher-find now x v w h f = rw h (add_valid-find now v w f)
