-- ===== src/Watcher/Tasks.antt =====
-- Starting and closing a watcher reach each of its tasks.
use wadjit.Prelude.{◌≡◌, ◌↔◌, ℕ, true, is_some, refl, Option, none, some, map, arith}
use wadjit.Run.{panics, Returns}
use wadjit.Watcher.{WatcherTask, Watcher, is_open, chan_errors, close_watcher, start}
use wadjit.Watcher.Each.{AllWell, each-map, each_sound, each_complete}

-- Closing a watcher whose channel is open returns. It closes every task, also after a task's error; it
-- reports no error exactly if no task does; and closing the result panics.
pub close_watcher-each :
    {T : Type 0} (k : WatcherTask T) (w : Watcher T)
    → w.done_chan ≡ some is_open
    → Returns (close_watcher k w) λ r.
      (r.0.tasks ≡ map (λ t. (k.close t).0) w.tasks)
      × ((r.1 ≡ none) ↔ AllWell k.close w.tasks)
      × (close_watcher k r.0 ≡ panics)
unfolding close_watcher
close_watcher-each k w o = rw o (
  each-map k.close w.tasks none,
  (λ h. (each_sound k.close w.tasks none h).1, each_complete k.close w.tasks),
  refl,
)

chan_errors-is_some : (c : Option ℕ) → (chan_errors c ≡ none) ↔ (is_some c ≡ true)
unfolding chan_errors
chan_errors-is_some c = ground arith

-- Starting a watcher initialises every task, with the watcher's identifier and the channel, also when
-- the channel is nil or another task fails. It reports no error exactly if the channel is given and no
-- task reports one.
pub start-each :
    {T : Type 0} (k : WatcherTask T) (c : Option ℕ) (w : Watcher T)
    → ((start k c w).0.tasks ≡ map (λ t. (k.initialize w.id c t).0) w.tasks)
      × (((start k c w).1 ≡ none) ↔ (is_some c ≡ true) × AllWell (k.initialize w.id c) w.tasks)
unfolding start
start-each k c w =
    let f = k.initialize w.id c in
    let given = chan_errors-is_some c in
    (
      each-map f w.tasks (chan_errors c),
      (
        λ h. let s = each_sound f w.tasks (chan_errors c) h in (given.0 s.0, s.1),
        λ h. rw (given.1 h.0) (each_complete f w.tasks h.1),
      ),
    )
