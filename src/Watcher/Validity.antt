-- ===== src/Watcher/Validity.antt =====
-- What `Validate` and `NewWatcher` accept.
use wadjit.Prelude.{
  String, ◌≡◌, ◌↔◌, refl, true, false, none, some, List, non_empty, arith, str_eq, pos, ◌<ℤ◌,
}
use wadjit.Clock.{Duration}
use wadjit.Watcher.{
  WatcherTask, Watcher, is_open, made, field_errors, validate_watcher, new_watcher,
}
use wadjit.Watcher.Each.{AllWell, each_sound, each_complete}

pub record IsValid {T : Type 0} (k : WatcherTask T) (w : Watcher T) : Type 0 where
  pub named : str_eq w.id "" ≡ false
  pub paced : pos 0 <ℤ w.cadence
  pub tasked : non_empty w.tasks ≡ true
  pub opened : w.done_chan ≡ some is_open
  pub valid : AllWell k.validate w.tasks

field_errors-none :
    {T : Type 0} (w : Watcher T)
    → field_errors w ≡ none
    → (str_eq w.id "" ≡ false)
      × (pos 0 <ℤ w.cadence)
      × (non_empty w.tasks ≡ true)
      × (w.done_chan ≡ some is_open)
unfolding field_errors
field_errors-none w h = ground arith

no_field_errors :
    {T : Type 0} (k : WatcherTask T) (w : Watcher T) → IsValid k w → field_errors w ≡ none
unfolding field_errors
no_field_errors k w v = ground (arith, v.named, v.paced, v.tasked, v.opened)

validate_sound :
    {T : Type 0} (k : WatcherTask T) (w : Watcher T)
    → (validate_watcher k (some w)).1 ≡ none
    → IsValid k w
unfolding validate_watcher
validate_sound k w h =
    let checked = each_sound k.validate w.tasks (field_errors w) h in
    let fields = field_errors-none w checked.0 in
    record {
      named = fields.0;
      paced = fields.1;
      tasked = fields.2;
      opened = fields.3;
      valid = checked.1;
    }

validate_complete :
    {T : Type 0} (k : WatcherTask T) (w : Watcher T)
    → IsValid k w
    → (validate_watcher k (some w)).1 ≡ none
unfolding validate_watcher
validate_complete k w h = rw (no_field_errors k w h) (each_complete k.validate w.tasks h.valid)

-- `Validate` accepts a watcher exactly if it has an identifier, a positive cadence, at least one task,
-- an open channel, and only tasks whose own `Validate` accepts them.
pub validate_watcher-IsValid :
    {T : Type 0} (k : WatcherTask T) (w : Watcher T)
    → ((validate_watcher k (some w)).1 ≡ none) ↔ IsValid k w
validate_watcher-IsValid k w = (validate_sound k w, validate_complete k w)

named-made :
    {T : Type 0} (xid id : String) (cadence : Duration) (tasks : List T)
    → str_eq xid "" ≡ false
    → str_eq (made xid id cadence tasks).id "" ≡ false
unfolding made
named-made xid id cadence tasks h = ground arith

new_watcher-validate :
    {T : Type 0} (k : WatcherTask T) (xid id : String) (cadence : Duration) (tasks : List T)
    → ((new_watcher k xid id cadence tasks).1 ≡ none)
      ↔ ((validate_watcher k (some (made xid id cadence tasks))).1 ≡ none)
unfolding new_watcher
new_watcher-validate k xid id cadence tasks = ground arith

-- Let the generated identifier be non-empty. `NewWatcher` reports no error exactly if the cadence is
-- positive, there is a task, and each task is valid by its own `Validate`.
pub new_watcher-accepts :
    {T : Type 0} (k : WatcherTask T) (xid id : String) (cadence : Duration) (tasks : List T)
    → str_eq xid "" ≡ false
    → ((new_watcher k xid id cadence tasks).1 ≡ none)
      ↔ (pos 0 <ℤ cadence) × (non_empty tasks ≡ true) × AllWell k.validate tasks
unfolding made
new_watcher-accepts k xid id cadence tasks h =
    let both = new_watcher-validate k xid id cadence tasks in
    let w = made xid id cadence tasks in
    (
      λ e. let v = validate_sound k w (both.0 e) in (v.paced, v.tasked, v.valid),
      λ p. both.1 (
          validate_complete k w (record {
            named = named-made xid id cadence tasks h;
            paced = p.0;
            tasked = p.1;
            opened = refl;
            valid = p.2;
          })),
    )
