-- ===== src/Wadjit/Order.antt =====
-- What each method of a `Wadjit` leaves of its registry in order (wadjit.go).
use wadjit.Prelude.{
  ℕ, String, ◌≡◌, refl, true, Option, none, some, List, [], ◌∷◌, arith, Bool-cases, inl, inr,
}
use wadjit.Clock.{Time}
use wadjit.GoError.{GoError}
use wadjit.Run.{Returns, Returns-bind}
use wadjit.Outcome.{Finishes, Finishes-value, of_run, Returns-of_run}
use wadjit.Watcher.{WatcherTask, Watcher, is_open, join_if, validate_watcher, close_watcher, start}
use wadjit.Watcher.Validity.{validate_watcher-IsValid}
use wadjit.Wadjit.Tasks.{AnyTask}
use wadjit.Wadjit.Registry.{put, ids}
use wadjit.Wadjit.Manager.{
  TaskManager, Wadjit, add_new, schedule, add_valid, add_validated, defaulted, add_watcher,
  remove_watcher, remove_each, clear,
}
use wadjit.Wadjit.Closing.{close_all}
use wadjit.Wadjit.Entries.{IsRegistry, find-IsRegistry, remove-IsRegistry, put-IsRegistry}

module _ {U M : Type 0} (k : WatcherTask (AnyTask U)) (tm : TaskManager M (AnyTask U)) where
  abbrev pub InOrder : Wadjit U M → Type 0
  InOrder w = IsRegistry w.watchers

  valid-opened :
      (x : Watcher (AnyTask U))
      → (validate_watcher k (some x)).1 ≡ none
      → x.done_chan ≡ some is_open
  valid-opened x h = ((validate_watcher-IsValid k x).0 h).opened

  start-opened :
      (c : Option ℕ) (x : Watcher (AnyTask U))
      → x.done_chan ≡ some is_open
      → ((start k c x).0.id ≡ x.id) × ((start k c x).0.done_chan ≡ some is_open)
  unfolding start
  start-opened c x h = (refl, ground arith)

  add_new-InOrder :
      (now : Time) (x : Watcher (AnyTask U)) (w : Wadjit U M)
      → x.done_chan ≡ some is_open
      → InOrder w
      → InOrder (add_new k tm now x w).0
  unfolding add_new schedule
  add_new-InOrder now x w o r =
      let s = (start k w.resp_gather_chan x).0 in
      let fresh = start-opened w.resp_gather_chan x o in
      let once = put-IsRegistry x.id s w.watchers fresh.0 fresh.1 r in
      let twice = put-IsRegistry s.id s (put x.id s w.watchers) refl fresh.1 once in ground arith

  add_validated-InOrder :
      (now : Time) (v : Option (Watcher (AnyTask U)) × Option GoError) (w : Wadjit U M)
      → ((x : Watcher (AnyTask U)) → v ≡ (some x, none) → x.done_chan ≡ some is_open)
      → InOrder w
      → InOrder (add_validated k tm now v w).0
  unfolding add_validated add_valid
  add_validated-InOrder now (x, some e) w o r = r
  add_validated-InOrder now (none, none) w o r = r
  add_validated-InOrder now (some x, none) w o r =
      ground (arith, add_new-InOrder now x w (o x refl) r)

  validated-opened :
      (d : Option (Watcher (AnyTask U))) (x : Watcher (AnyTask U))
      → validate_watcher k d ≡ (some x, none)
      → x.done_chan ≡ some is_open
  unfolding validate_watcher
  validated-opened none x h = cc h
  validated-opened (some d) x h = ground (arith, valid-opened d)

  pub add_watcher-InOrder :
      (now : Time) (x : Option (Watcher (AnyTask U))) (w : Wadjit U M)
      → InOrder w
      → InOrder (add_watcher k tm now x w).0
  unfolding add_watcher
  add_watcher-InOrder now x w r =
      add_validated-InOrder now _ w (validated-opened (defaulted k tm w x)) r

  pub remove_watcher-InOrder :
      (id : String) (w : Wadjit U M)
      → InOrder w
      → Returns (remove_watcher k tm id w) λ r. InOrder r.0
  unfolding remove_watcher close_watcher
  remove_watcher-InOrder id w r = grind (arith, find-IsRegistry, remove-IsRegistry)

  remove_each-InOrder :
      (f : Option GoError → Option GoError → Option GoError) (l : List String)
      (errs : Option GoError) (w : Wadjit U M)
      → InOrder w
      → Returns (remove_each k tm f l errs w) λ r. InOrder r.0
  unfolding remove_each
  remove_each-InOrder f [] errs w r = r
  remove_each-InOrder f (id ∷ l) errs w r =
      Returns-bind (λ q. InOrder q.0) (λ q. InOrder q.0) (remove_watcher k tm id w) _
        (remove_watcher-InOrder id w r)
        (λ q in_order. remove_each-InOrder f l (f errs q.1) q.0 in_order)

  pub clear-InOrder : (w : Wadjit U M) → InOrder w → Returns (clear k tm w) λ r. InOrder r.0
  unfolding clear
  clear-InOrder w r = remove_each-InOrder _ (ids w.watchers) none w r

  pub close-InOrder :
      (w : Wadjit U M) → InOrder w → Finishes (close_all k tm true w) λ r. InOrder r.0
  unfolding close_all
  close-InOrder w r = elim (Bool-cases w.closed_once) [
    | inl again ↦ rw again r
    | inr first ↦
        let begun : Wadjit U M = record w { canceled = true; closed_once = true } in
        let removes = remove_each k tm join_if (ids w.watchers) none begun in
        let (q, made, left) =
          Finishes-value (λ q. InOrder q.0) (of_run removes)
            (Returns-of_run (λ q. InOrder q.0) removes
              (remove_each-InOrder join_if (ids w.watchers) none begun r)) in
        rw first (rw made left)
  ]
