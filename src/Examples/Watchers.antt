-- ===== src/Examples/Watchers.antt =====
-- A watcher of tasks that can be closed once.
use wadjit.Prelude.{
  ◌≡◌, refl, Bool, true, false, none, some, List, [], ◌∷◌, pos, is_some, if◌then◌else◌,
}
use wadjit.GoError.{message, joined_one}
use wadjit.Run.{returns}
use wadjit.Watcher.{WatcherTask, Watcher, is_open, is_closed, validate_watcher, close_watcher}

-- A task is true once it is closed.
abbrev closable : WatcherTask Bool
closable = record {
  close = λ t. (true, if t then some (message "closed") else none);
  initialize = λ id c t. (false, if is_some c then none else some (message "no channel"));
  validate = λ t. (t, if t then some (message "closed") else none);
}

abbrev watcher : List Bool → Watcher Bool
watcher ts = record { id = "a"; cadence = pos 5; tasks = ts; done_chan = some is_open }

-- The second task is closed although the first reports an error.
closes_both :
    close_watcher closable (watcher (true ∷ false ∷ []))
    ≡ returns (
      record (watcher (true ∷ true ∷ [])) { done_chan = some is_closed },
      some (joined_one (message "closed")),
    )
unfolding close_watcher
closes_both = refl

refuses_no_tasks :
    (validate_watcher closable (some (watcher []))).1
    ≡ some (joined_one (message "var Tasks must not be nil or empty"))
unfolding validate_watcher
refuses_no_tasks = refl
