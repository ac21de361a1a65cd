-- ===== src/Examples/Managers.antt =====
-- A Wadjit whose tasks are numbers and whose task manager is the list of its jobs.
use wadjit.Prelude.{
  ◌≡◌, ◌↔◌, refl, ℕ, String, Bool, true, Option, none, some, List, [], ◌∷◌, ◌==◌, pos, str_eq,
  if◌then◌else◌, is_some,
}
use wadjit.GoError.{GoError, external, joined_one}
use wadjit.Outcome.{Finishes}
use wadjit.Run.{returns, panics, Returns}
use wadjit.Dns.Policy.{ttl_mode}
use wadjit.Watcher.{WatcherTask, Watcher, is_open, each, validate_watcher, close_watcher, start}
use wadjit.Wadjit.Tasks.{AnyTask, http_task, other_task, apply_default_dns_policy}
use wadjit.Wadjit.Options.{apply_options}
use wadjit.Wadjit.Registry.{find}
use wadjit.Wadjit.Manager.{
  TaskManager, Wadjit, new, job, defaulted, add_valid, add_watcher, schedule, remove_watcher,
}
use wadjit.Wadjit.Entries.{IsRegistry}
use wadjit.Wadjit.Nil.{has_nil, validate_tasks, add_any}
use wadjit.Wadjit.Calls.{Call, adds, removes, closes, is_sound, is_fit, run, run-IsRegistry}
use wadjit.Wadjit.Removal.{remove_watcher-find, add_watcher-find}
use wadjit.Wadjit.Races.{watcher_started, add_begun, remove_watcher-schedule}
use wadjit.Examples.{policy}

-- The task 0 cannot be closed.
abbrev close_number : AnyTask ℕ → AnyTask ℕ × Option GoError
close_number (http_task e) = (http_task e, none)
close_number (other_task n) = (other_task n, if n == 0 then some (external 1) else none)

abbrev numbers : WatcherTask (AnyTask ℕ)
numbers = record {
  close = close_number;
  initialize = λ id c t. (t, none);
  validate = λ t. (t, none);
}

abbrev without : String → List String → List String
without id [] = []
without id (j ∷ l) = let rest = without id l in if str_eq j id then rest else j ∷ rest

abbrev jobs : TaskManager (List String) (AnyTask ℕ)
jobs = record {
  schedule_job = λ j m. (j.id ∷ m, none);
  remove_job = λ id m. (without id m, none);
  pause_job = λ id m. (m, none);
  resume_job = λ id m. (m, none);
  stop = λ m. [];
}

abbrev watcher : String → ℕ → Watcher (AnyTask ℕ)
watcher id n = record {
  id = id;
  cadence = pos 5;
  tasks = other_task n ∷ [];
  done_chan = some is_open;
}

abbrev no_wadjit : Wadjit ℕ (List String)
no_wadjit = new {O = ℕ} {L = ℕ} (λ o. []) 3 (apply_options 0 (policy ttl_mode (pos 0)) [])

abbrev two : Wadjit ℕ (List String)
two = record no_wadjit {
  watchers = ("a", watcher "a" 0) ∷ ("b", watcher "b" 1) ∷ [];
  task_manager = "a" ∷ "b" ∷ [];
}

two_in_order : IsRegistry two.watchers
unfolding find
two_in_order = (refl, refl, refl, (refl, refl, refl, tt))

abbrev calls : List (Call ℕ)
calls = adds (pos 1) (some (watcher "c" 2)) ∷ removes "a" ∷ closes true ∷ []

-- The task 9 stands for a nil one.
abbrev is_nine : ℕ → Bool
is_nine n = n == 9

run-IsRegistry_example : Finishes (run is_nine numbers jobs calls two) λ r. IsRegistry r.0.watchers
unfolding is_fit is_sound has_nil
run-IsRegistry_example =
    run-IsRegistry is_nine numbers jobs calls two (refl, (refl, (refl, tt))) two_in_order

-- A nil task makes the call panic.
nil_panics : add_any is_nine numbers jobs (pos 1) (some (watcher "c" 9)) two ≡ panics
unfolding add_any validate_tasks has_nil defaulted apply_default_dns_policy new apply_options
nil_panics = refl

-- The job of a watcher that could not be closed is left.
job_stays :
    remove_watcher numbers jobs "a" two
    ≡ returns (record two { watchers = ("b", watcher "b" 1) ∷ [] }, some (joined_one (external 1)))
unfolding remove_watcher new
job_stays = refl

remove_watcher-find_example : Returns (remove_watcher numbers jobs "a" two) λ r.
    ((other : String)
      → find other r.0.watchers ≡ (if str_eq "a" other then none else find other two.watchers))
    × ((each close_number ((watcher "a" 0).tasks) none).1 ≡ none
        → r.0.task_manager ≡ (jobs.remove_job "a" two.task_manager).0)
    × (is_some (each close_number ((watcher "a" 0).tasks) none).1 ≡ true
        → (r.1 ≡ (each close_number ((watcher "a" 0).tasks) none).1)
          × (r.0.task_manager ≡ two.task_manager))
unfolding find
remove_watcher-find_example =
    remove_watcher-find numbers jobs "a" (watcher "a" 0) two two_in_order refl

add_watcher-find_example :
    (find "c" (add_watcher numbers jobs (pos 1) (some (watcher "c" 2)) two).0.watchers
      ≡ some (start numbers two.resp_gather_chan (watcher "c" 2)).0)
    × (((add_watcher numbers jobs (pos 1) (some (watcher "c" 2)) two).1 ≡ none)
        ↔ ((start numbers two.resp_gather_chan (watcher "c" 2)).1 ≡ none)
          × ((jobs.schedule_job
                (job (pos 1) (start numbers two.resp_gather_chan (watcher "c" 2)).0)
                two.task_manager).1
              ≡ none))
unfolding find defaulted apply_default_dns_policy validate_watcher new apply_options
add_watcher-find_example =
    add_watcher-find numbers jobs (pos 1) (watcher "c" 2) (watcher "c" 2) two refl refl

remove_watcher-schedule_example :
    (add_valid numbers jobs (pos 1) (watcher "c" 2) two
      ≡ schedule numbers jobs
          (pos 1)
          (watcher_started numbers jobs (watcher "c" 2) two)
          (add_begun numbers jobs (watcher "c" 2) two))
    × Returns (remove_watcher numbers jobs "c" (add_begun numbers jobs (watcher "c" 2) two)) λ r.
      (find "c" r.0.watchers ≡ none)
      × Returns (close_watcher numbers (watcher_started numbers jobs (watcher "c" 2) two)) λ q.
        (find "c" (schedule numbers jobs (pos 1) q.0 r.0).0.watchers ≡ some q.0)
        × (remove_watcher numbers jobs "c" (schedule numbers jobs (pos 1) q.0 r.0).0 ≡ panics)
unfolding find start new apply_options
remove_watcher-schedule_example =
    remove_watcher-schedule numbers jobs (pos 1) (watcher "c" 2) two refl refl refl (λ j m. refl)
