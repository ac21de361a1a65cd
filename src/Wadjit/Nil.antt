-- ===== src/Wadjit/Nil.antt =====
-- `AddWatcher` and `AddWatchers` of watchers that may have nil tasks, whose methods panic (wadjit.go,
-- watcher.go).
use wadjit.Prelude.{Bool, false, ◌||◌, Option, none, some, List, [], ◌∷◌, if◌then◌else◌}
use wadjit.Clock.{Time}
use wadjit.GoError.{GoError}
use wadjit.Run.{Run, returns, panics, ◌>>=◌}
use wadjit.Watcher.{WatcherTask, Watcher, join_if, validate_watcher}
use wadjit.Wadjit.Tasks.{AnyTask, http_task, other_task}
use wadjit.Wadjit.Manager.{TaskManager, Wadjit, defaulted, add_validated}

-- Of the tasks that are no HTTP endpoints, those with the property are nil.
unfoldable pub has_nil : {U : Type 0} → (U → Bool) → List (AnyTask U) → Bool
has_nil is_nil [] = false
has_nil is_nil (http_task e ∷ ts) = has_nil is_nil ts
has_nil is_nil (other_task u ∷ ts) = is_nil u || has_nil is_nil ts

module _ {U M : Type 0} (is_nil : U → Bool) (k : WatcherTask (AnyTask U))
    (tm : TaskManager M (AnyTask U)) where
  -- `Validate` calls that of each task, also after an error.
  unfoldable pub validate_tasks :
      Option (Watcher (AnyTask U)) → Run (Option (Watcher (AnyTask U)) × Option GoError)
  unfolding validate_watcher has_nil
  validate_tasks none = returns (validate_watcher k none)
  validate_tasks (some x) =
      if has_nil is_nil x.tasks then panics else returns (validate_watcher k (some x))

  unfoldable pub add_any :
      Time → Option (Watcher (AnyTask U)) → Wadjit U M → Run (Wadjit U M × Option GoError)
  unfolding validate_tasks defaulted add_validated
  add_any now x w = do v ← validate_tasks (defaulted k tm w x); returns (add_validated k tm now v w)

  unfoldable pub add_all :
      Time
      → List (Option (Watcher (AnyTask U)))
      → Option GoError
      → Wadjit U M
      → Run (Wadjit U M × Option GoError)
  unfolding add_any join_if
  add_all now [] errs w = returns (w, errs)
  add_all now (x ∷ l) errs w = do r ← add_any now x w; add_all now l (join_if errs r.1) r.0
