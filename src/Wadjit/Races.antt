-- ===== src/Wadjit/Races.antt =====
-- `RemoveWatcher` between the steps of an `AddWatcher` of the same identifier (wadjit.go). The map holds a
-- pointer: what closing does to the watcher is seen by the call that adds it.
use wadjit.Prelude.{◌≡◌, none, some, arith, eq_iff}
use wadjit.Clock.{Time}
use wadjit.Run.{panics, Returns}
use wadjit.Watcher.{WatcherTask, Watcher, is_open, is_closed, close_watcher, each, start}
use wadjit.Wadjit.Tasks.{AnyTask}
use wadjit.Wadjit.Registry.{find, remove, put}
use wadjit.Wadjit.Manager.{
  TaskManager, Wadjit, Job, schedule, remove_watcher, job, add_new, add_valid,
}
use wadjit.Wadjit.Entries.{find-remove, find-put}

module _ {U M : Type 0} (k : WatcherTask (AnyTask U)) (tm : TaskManager M (AnyTask U)) where
  remove_watcher-closed :
      (now : Time) (x : Watcher (AnyTask U)) (w : Wadjit U M)
      → x.done_chan ≡ some is_open
      → find x.id w.watchers ≡ some x
      → ((j : Job (AnyTask U)) (m : M) → (tm.schedule_job j m).1 ≡ none)
      → Returns (remove_watcher k tm x.id w) λ r.
        (find x.id r.0.watchers ≡ none)
        × Returns (close_watcher k x) λ q.
          (find x.id (schedule k tm now q.0 r.0).0.watchers ≡ some q.0)
          × (remove_watcher k tm x.id (schedule k tm now q.0 r.0).0 ≡ panics)
  unfolding remove_watcher close_watcher schedule
  remove_watcher-closed now x w opened found accepts =
      let q = (each k.close x.tasks none).0 in
      let closed : Watcher (AnyTask U) = record x { tasks = q; done_chan = some is_closed } in
      ground (
        arith,
        opened,
        found,
        find-remove x.id x.id w.watchers,
        find-put x.id x.id closed (remove x.id w.watchers),
        accepts (job now closed) w.task_manager,
        accepts (job now closed) (tm.remove_job x.id w.task_manager).0,
        eq_iff x.id x.id,
      )

  abbrev pub watcher_started : Watcher (AnyTask U) → Wadjit U M → Watcher (AnyTask U)
  watcher_started x w = (start k w.resp_gather_chan x).0

  -- The state that `AddWatcher` has reached when it schedules the job.
  abbrev pub add_begun : Watcher (AnyTask U) → Wadjit U M → Wadjit U M
  add_begun x w = record w { watchers = put x.id (watcher_started x w) w.watchers }

  -- Let `AddWatcher` of a valid watcher with a new identifier have registered and started it with no
  -- error, so that scheduling its job is left, and let jobs be scheduled with no error. If `RemoveWatcher`
  -- of the identifier comes in between, which removes and closes the watcher, the rest of `AddWatcher`
  -- registers the closed watcher again, and the next `RemoveWatcher` of it panics.
  pub remove_watcher-schedule :
      (now : Time) (x : Watcher (AnyTask U)) (w : Wadjit U M)
      → x.done_chan ≡ some is_open
      → find x.id w.watchers ≡ none
      → (start k w.resp_gather_chan x).1 ≡ none
      → ((j : Job (AnyTask U)) (m : M) → (tm.schedule_job j m).1 ≡ none)
      → (add_valid k tm now x w ≡ schedule k tm now (watcher_started x w) (add_begun x w))
        × Returns (remove_watcher k tm x.id (add_begun x w)) λ r.
          (find x.id r.0.watchers ≡ none)
          × Returns (close_watcher k (watcher_started x w)) λ q.
            (find x.id (schedule k tm now q.0 r.0).0.watchers ≡ some q.0)
            × (remove_watcher k tm x.id (schedule k tm now q.0 r.0).0 ≡ panics)
  unfolding add_valid add_new start
  remove_watcher-schedule now x w opened absent fine accepts = (
    ground (arith, absent, fine),
    remove_watcher-closed now (watcher_started x w) (add_begun x w) (ground (arith, opened))
        (ground (arith, find-put x.id x.id (watcher_started x w) w.watchers, eq_iff x.id x.id))
        accepts,
  )
