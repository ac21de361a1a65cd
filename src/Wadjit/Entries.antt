-- ===== src/Wadjit/Entries.antt =====
-- The registry of a `Wadjit`: every watcher stands under its own identifier, once, and is not closed.
use wadjit.Prelude.{String, ◌≡◌, refl, none, some, [], ◌∷◌, str_eq, eq_iff, arith, if◌then◌else◌}
use wadjit.Watcher.{Watcher, is_open}
use wadjit.Wadjit.Registry.{Registry, find, remove, put}

abbrev pub IsRegistry : {T : Type 0} → Registry (Watcher T) → Type 0
IsRegistry [] = Unit {0}
IsRegistry ((key, w) ∷ l) =
    (w.id ≡ key) × (w.done_chan ≡ some is_open) × (find key l ≡ none) × IsRegistry l

module _ {W : Type 0} where
  pub find-remove :
      (id key : String) (l : Registry W)
      → find id (remove key l) ≡ (if str_eq key id then none else find id l)
  unfolding find remove
  find-remove id key [] = ground arith
  find-remove id key ((j, w) ∷ l) =
      ground (arith, find-remove id key l, eq_iff j key, eq_iff j id, eq_iff key id)

  pub remove_absent : (key : String) (l : Registry W) → find key l ≡ none → remove key l ≡ l
  unfolding find remove
  remove_absent key [] h = refl
  remove_absent key ((j, w) ∷ l) h = ground (arith, remove_absent key l)

  pub find-put :
      (id key : String) (w : W) (l : Registry W)
      → find id (put key w l) ≡ (if str_eq key id then some w else find id l)
  unfolding find put
  find-put id key w l = ground (arith, find-remove id key l)

module _ {T : Type 0} where
  pub find-IsRegistry :
      (id : String) (l : Registry (Watcher T)) (w : Watcher T)
      → IsRegistry l
      → find id l ≡ some w
      → (w.id ≡ id) × (w.done_chan ≡ some is_open)
  unfolding find
  find-IsRegistry id [] w r h = cc h
  find-IsRegistry id ((key, x) ∷ l) w r h =
      ground (arith, find-IsRegistry id l w r.3, eq_iff key id)

  pub remove-IsRegistry :
      (id : String) (l : Registry (Watcher T)) → IsRegistry l → IsRegistry (remove id l)
  unfolding remove
  remove-IsRegistry id [] r = tt
  remove-IsRegistry id ((key, x) ∷ l) r =
      ground (arith, remove-IsRegistry id l r.3, find-remove key id l)

  pub put-IsRegistry :
      (id : String) (w : Watcher T) (l : Registry (Watcher T))
      → w.id ≡ id
      → w.done_chan ≡ some is_open
      → IsRegistry l
      → IsRegistry (put id w l)
  unfolding put
  put-IsRegistry id w l named opened r =
      (named, opened, ground (arith, find-remove id id l, eq_iff id id), remove-IsRegistry id l r)
