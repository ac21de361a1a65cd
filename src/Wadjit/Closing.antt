-- ===== src/Wadjit/Closing.antt =====
-- `Close` of a `Wadjit` (wadjit.go).
use wadjit.Prelude.{Bool, true, false, Option, none, if◌then◌else◌}
use wadjit.GoError.{GoError}
use wadjit.Outcome.{Outcome, finishes, blocks, ◌>>=◌, of_run}
use wadjit.Watcher.{WatcherTask, join_if}
use wadjit.Wadjit.Tasks.{AnyTask}
use wadjit.Wadjit.Registry.{ids}
use wadjit.Wadjit.Manager.{TaskManager, Wadjit, remove_each}

module _ {U M : Type 0} (k : WatcherTask (AnyTask U)) (tm : TaskManager M (AnyTask U)) where
  -- The context is canceled, the watchers are removed, the task manager is stopped and the channel of the
  -- tasks is closed; the wait for the goroutine follows.
  stopped : Wadjit U M × Option GoError → Wadjit U M
  stopped (w, errs) = record w { task_manager = tm.stop w.task_manager; gather_open = false }

  -- `w.closeWG.Wait()`: whether the goroutine ends is what its channels decide.
  wait_closed : Bool → Wadjit U M × Option GoError → Outcome (Wadjit U M × Option GoError)
  wait_closed goroutine_ends (w, errs) =
      if goroutine_ends
      then finishes (record w { export_open = false; close_err = errs }, errs)
      else blocks

  unfoldable pub close_all : Bool → Wadjit U M → Outcome (Wadjit U M × Option GoError)
  unfolding remove_each join_if stopped wait_closed
  close_all goroutine_ends w = if w.closed_once then finishes (w, w.close_err) else (do
    r ← of_run (
        remove_each k tm join_if (ids w.watchers) none
          (record w { canceled = true; closed_once = true }))
    wait_closed goroutine_ends (stopped r, r.1))
