-- ===== src/Wadjit/Calls.antt =====
-- Lists of calls of a `Wadjit` (wadjit.go), and its registry.
use wadjit.Prelude.{
  String, Bool, not, ◌≡◌, ◌∙◌, ap, map, refl, true, ◌&&◌, ◌||◌, Option, none, some, List, [], ◌∷◌,
  arith,
}
use wadjit.Clock.{Time}
use wadjit.GoError.{GoError}
use wadjit.Run.{returns, Returns, Returns-bind}
use wadjit.Outcome.{Outcome, finishes, Finishes, Finishes-bind, ◌>>=◌, of_run, Returns-of_run}
use wadjit.Dns.Policy.{DnsPolicy}
use wadjit.Watcher.{WatcherTask, Watcher, join_if, validate_watcher}
use wadjit.Wadjit.Tasks.{AnyTask, http_task, other_task, with_default, apply_default_dns_policy}
use wadjit.Wadjit.Manager.{
  TaskManager, Wadjit, defaulted, add_watcher, pause_watcher, resume_watcher, remove_watcher, clear,
}
use wadjit.Wadjit.Nil.{has_nil, validate_tasks, add_any, add_all}
use wadjit.Wadjit.Closing.{close_all}
use wadjit.Wadjit.Entries.{IsRegistry}
use wadjit.Wadjit.Order.{
  InOrder, add_watcher-InOrder, remove_watcher-InOrder, clear-InOrder, close-InOrder,
}

module _ {U M : Type 0} (is_nil : U → Bool) (k : WatcherTask (AnyTask U))
    (tm : TaskManager M (AnyTask U)) where
  -- The watcher, if there is one, has no nil task.
  unfoldable pub is_sound : Option (Watcher (AnyTask U)) → Bool
  unfolding has_nil
  is_sound none = true
  is_sound (some x) = not (has_nil is_nil x.tasks)

  has_nil-with_default :
      (policy : DnsPolicy) (ts : List (AnyTask U))
      → has_nil is_nil (map (with_default policy) ts) ≡ has_nil is_nil ts
  unfolding has_nil with_default
  has_nil-with_default policy [] = refl
  has_nil-with_default policy (http_task e ∷ ts) = ground (arith, has_nil-with_default policy ts)
  has_nil-with_default policy (other_task u ∷ ts) =
      ap (λ b. is_nil u || b) (has_nil-with_default policy ts)

  defaulted-is_sound :
      (x : Option (Watcher (AnyTask U))) (w : Wadjit U M)
      → is_sound (defaulted k tm w x) ≡ is_sound x
  unfolding is_sound defaulted apply_default_dns_policy
  defaulted-is_sound none w = refl
  defaulted-is_sound (some x) w = ground (arith, has_nil-with_default w.default_dns_policy x.tasks)

  validate_tasks-is_sound :
      (x : Option (Watcher (AnyTask U)))
      → is_sound x ≡ true
      → validate_tasks is_nil k tm x ≡ returns (validate_watcher k x)
  unfolding is_sound validate_tasks
  validate_tasks-is_sound none h = refl
  validate_tasks-is_sound (some x) h = ground arith

  -- With no nil task `AddWatcher` is what it is without them.
  add_any-add_watcher :
      (now : Time) (x : Option (Watcher (AnyTask U))) (w : Wadjit U M)
      → is_sound x ≡ true
      → add_any is_nil k tm now x w ≡ returns (add_watcher k tm now x w)
  unfolding add_any add_watcher
  add_any-add_watcher now x w h =
      rw (validate_tasks-is_sound (defaulted k tm w x) (defaulted-is_sound x w ∙ h)) refl

  add_any-InOrder :
      (now : Time) (x : Option (Watcher (AnyTask U))) (w : Wadjit U M)
      → is_sound x ≡ true
      → InOrder k tm w
      → Returns (add_any is_nil k tm now x w) λ r. InOrder k tm r.0
  add_any-InOrder now x w h r =
      rw (add_any-add_watcher now x w h) (add_watcher-InOrder k tm now x w r)

  unfoldable pub are_sound : List (Option (Watcher (AnyTask U))) → Bool
  unfolding is_sound
  are_sound [] = true
  are_sound (x ∷ l) = is_sound x && are_sound l

  add_all-InOrder :
      (now : Time) (l : List (Option (Watcher (AnyTask U)))) (errs : Option GoError)
      (w : Wadjit U M)
      → are_sound l ≡ true
      → InOrder k tm w
      → Returns (add_all is_nil k tm now l errs w) λ r. InOrder k tm r.0
  unfolding add_all are_sound
  add_all-InOrder now [] errs w h r = r
  add_all-InOrder now (x ∷ l) errs w h r =
      Returns-bind (λ q. InOrder k tm q.0) (λ q. InOrder k tm q.0) (add_any is_nil k tm now x w) _
        (add_any-InOrder now x w (ground arith) r)
        (λ q in_order. add_all-InOrder now l (join_if errs q.1) q.0 (ground arith) in_order)

-- A call of a method that changes the state. At a `Close` the goroutine that it waits for ends or not.
pub data Call (U : Type 0) : Type 0 where
  adds : Time → Option (Watcher (AnyTask U)) → Call U
  adds_all : Time → List (Option (Watcher (AnyTask U))) → Call U
  pauses resumes removes : String → Call U
  clears : Call U
  closes : Bool → Call U

module _ {U M : Type 0} (is_nil : U → Bool) (k : WatcherTask (AnyTask U))
    (tm : TaskManager M (AnyTask U)) where
  unfoldable pub run_call : Call U → Wadjit U M → Outcome (Wadjit U M × Option GoError)
  run_call (adds now x) w = of_run (add_any is_nil k tm now x w)
  run_call (adds_all now l) w = of_run (add_all is_nil k tm now l none w)
  run_call (pauses id) w = finishes (pause_watcher k tm id w)
  run_call (resumes id) w = finishes (resume_watcher k tm id w)
  run_call (removes id) w = of_run (remove_watcher k tm id w)
  run_call clears w = of_run (clear k tm w)
  run_call (closes goroutine_ends) w = close_all k tm goroutine_ends w

  -- The state after a list of calls, with the errors that they returned.
  unfoldable pub run : List (Call U) → Wadjit U M → Outcome (Wadjit U M × List (Option GoError))
  unfolding run_call
  run [] w = finishes (w, [])
  run (c ∷ l) w = do r ← run_call c w; s ← run l r.0; finishes (s.0, r.1 ∷ s.1)

  -- No task that is given is nil, and the goroutine that a `Close` waits for ends.
  unfoldable pub is_fit : Call U → Bool
  unfolding is_sound are_sound
  is_fit (adds now x) = is_sound is_nil k tm x
  is_fit (adds_all now l) = are_sound is_nil k tm l
  is_fit (pauses id) = true
  is_fit (resumes id) = true
  is_fit (removes id) = true
  is_fit clears = true
  is_fit (closes goroutine_ends) = goroutine_ends

  abbrev pub AllFit : List (Call U) → Type 0
  AllFit [] = Unit {0}
  AllFit (c ∷ l) = (is_fit c ≡ true) × AllFit l

  abbrev Kept : Wadjit U M × Option GoError → Type 0
  Kept r = InOrder k tm r.0

  run_call-InOrder :
      (c : Call U) (w : Wadjit U M)
      → is_fit c ≡ true
      → InOrder k tm w
      → Finishes (run_call c w) Kept
  unfolding run_call is_fit pause_watcher resume_watcher
  run_call-InOrder (adds now x) w h r =
      Returns-of_run Kept _ (add_any-InOrder is_nil k tm now x w h r)
  run_call-InOrder (adds_all now l) w h r =
      Returns-of_run Kept _ (add_all-InOrder is_nil k tm now l none w h r)
  run_call-InOrder (pauses id) w h r = r
  run_call-InOrder (resumes id) w h r = r
  run_call-InOrder (removes id) w h r = Returns-of_run Kept _ (remove_watcher-InOrder k tm id w r)
  run_call-InOrder clears w h r = Returns-of_run Kept _ (clear-InOrder k tm w r)
  run_call-InOrder (closes b) w h r = rw h (close-InOrder k tm w r)

  run-InOrder :
      (l : List (Call U)) (w : Wadjit U M)
      → AllFit l
      → InOrder k tm w
      → Finishes (run l w) λ r. InOrder k tm r.0
  unfolding run
  run-InOrder [] w h r = r
  run-InOrder (c ∷ l) w h r =
      Finishes-bind Kept _ (run_call c w) _ (run_call-InOrder c w h.0 r) (λ q in_order.
        Finishes-bind (λ s. InOrder k tm s.0) (λ s. InOrder k tm s.0) (run l q.0) _
          (run-InOrder l q.0 h.1 in_order) (λ s done. done))

  -- From a registry in order, let a list of calls be made in which no watcher has a nil task and the
  -- goroutine that a `Close` waits for ends; the methods of the tasks and of the task manager return,
  -- with any error. Then each call returns and none panics, and the registry is left in order: each
  -- watcher stands once, under its own identifier, and is not closed.
  pub run-IsRegistry :
      (l : List (Call U)) (w : Wadjit U M)
      → AllFit l
      → IsRegistry w.watchers
      → Finishes (run l w) λ r. IsRegistry r.0.watchers
  run-IsRegistry l w fit r = run-InOrder l w fit r
