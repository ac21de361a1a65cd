-- ===== src/Watcher.antt =====
-- `Watcher` (watcher.go): what makes a watcher valid, and how it is made, started and closed. Its tasks
-- are of any type with the operations of the interface `WatcherTask` (task.go).
pub mod Each
pub mod Validity
pub mod Tasks
use wadjit.Prelude.{
  ℕ, String, Bool, true, false, Option, none, some, List, [], ◌∷◌, non_empty, if◌then◌else◌, str_eq,
  ℤ, pos, leb_ℤ,
}
use wadjit.Clock.{Duration}
use wadjit.GoError.{GoError, message, wrapped, join}
use wadjit.Run.{Run, returns, panics}

-- A method with a pointer receiver returns the task that it leaves; the tasks of a watcher are taken
-- to be distinct objects. The methods are taken to return. A channel of responses
-- is a number.
pub record WatcherTask (T : Type 0) : Type 0 where
  pub close : T → T × Option GoError
  pub initialize : String → Option ℕ → T → T × Option GoError
  pub validate : T → T × Option GoError

pub data DoneChan : Type 0 where
  is_open is_closed : DoneChan

pub record Watcher (T : Type 0) : Type 0 where
  pub id : String
  pub cadence : Duration
  pub tasks : List T
  pub done_chan : Option DoneChan

-- `if err != nil { errs = errors.Join(errs, err) }`
unfoldable pub join_if : Option GoError → Option GoError → Option GoError
unfolding join
join_if errs none = errs
join_if errs (some e) = join errs (some e)

-- One call per task, in order, whose errors are joined.
unfoldable pub each :
    {T : Type 0} → (T → T × Option GoError) → List T → Option GoError → List T × Option GoError
unfolding join_if
each f [] errs = ([], errs)
each f (t ∷ ts) errs = let r = each f ts (join_if errs (f t).1) in ((f t).0 ∷ r.0, r.1)

unfoldable pub check : Bool → String → Option GoError → Option GoError
unfolding join
check wrong text errs = if wrong then join errs (some (message text)) else errs

unfoldable pub check_done_chan : Option DoneChan → Option GoError → Option GoError
unfolding join
check_done_chan none errs = join errs (some (message "doneChan must not be nil"))
check_done_chan (some is_closed) errs = join errs (some (message "doneChan must not be closed"))
check_done_chan (some is_open) errs = errs

unfoldable pub no_tasks : {T : Type 0} → List T → Bool
no_tasks [] = true
no_tasks (t ∷ ts) = false

-- The errors of the watcher's own fields.
unfoldable pub field_errors : {T : Type 0} → Watcher T → Option GoError
unfolding check check_done_chan no_tasks
field_errors w =
    let named = check (str_eq w.id "") "var ID must not be nil" none in
    let paced = check (leb_ℤ w.cadence (pos 0)) "var Cadence must be greater than 0" named in
    let tasked = check (no_tasks w.tasks) "var Tasks must not be nil or empty" paced in
    check_done_chan w.done_chan tasked

-- `Validate` of a task may fill in what the task lacks. No task is nil here: that of a nil one panics.
unfoldable pub validate_watcher :
    {T : Type 0} → WatcherTask T → Option (Watcher T) → Option (Watcher T) × Option GoError
unfolding field_errors each
validate_watcher k none = (none, some (message "watcher is nil"))
validate_watcher k (some w) =
    let r = each k.validate w.tasks (field_errors w) in (some (record w { tasks = r.0 }), r.1)

-- `close(w.doneChan)` panics if the channel is nil or closed.
unfoldable pub close_watcher :
    {T : Type 0} → WatcherTask T → Watcher T → Run (Watcher T × Option GoError)
unfolding each
close_watcher k w = elim w.done_chan [
  | none ↦ panics
  | some is_closed ↦ panics
  | some is_open ↦
      let r = each k.close w.tasks none in
      returns (record w { tasks = r.0; done_chan = some is_closed }, r.1)
]

abbrev pub or_made : Option DoneChan → DoneChan
or_made none = is_open
or_made (some c) = c

unfoldable pub chan_errors : Option ℕ → Option GoError
unfolding join
chan_errors none = join none (some (message "response channel is nil"))
chan_errors (some c) = none

unfoldable pub start :
    {T : Type 0} → WatcherTask T → Option ℕ → Watcher T → Watcher T × Option GoError
unfolding chan_errors each
start k response_chan w =
    let r = each (k.initialize w.id response_chan) w.tasks (chan_errors response_chan) in
    (record w { tasks = r.0; done_chan = some (or_made w.done_chan) }, r.1)

unfoldable pub made : {T : Type 0} → String → String → Duration → List T → Watcher T
made xid id cadence tasks = record {
  id = if str_eq id "" then xid else id;
  cadence = cadence;
  tasks = tasks;
  done_chan = some is_open;
}

-- `xid` is the identifier that `xid.New().String()` gives.
unfoldable pub new_watcher :
    {T : Type 0}
    → WatcherTask T
    → String
    → String
    → Duration
    → List T
    → Option (Watcher T) × Option GoError
unfolding made validate_watcher
new_watcher k xid id cadence tasks =
    let w = made xid id cadence tasks in
    let (valid, err) = validate_watcher k (some w) in
    elim err [
      | some e ↦ (none, some (wrapped "invalid watcher initialization" e))
      | none ↦ (valid, none)
    ]
