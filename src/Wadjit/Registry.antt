-- ===== src/Wadjit/Registry.antt =====
-- The map from identifiers to watchers, `sync.Map`, and its operations as wadjit.go uses them.
use wadjit.Prelude.{String, Option, none, some, List, [], ◌∷◌, str_eq, if◌then◌else◌}

abbrev pub Registry : Type 0 → Type 0
Registry W = List (String × W)

module _ {W : Type 0} where
  unfoldable pub find : String → Registry W → Option W
  find id [] = none
  find id ((key, w) ∷ l) = if str_eq key id then some w else find id l

  unfoldable pub remove : String → Registry W → Registry W
  remove id [] = []
  remove id ((key, w) ∷ l) =
      let rest = remove id l in if str_eq key id then rest else (key, w) ∷ rest

  unfoldable pub put : String → W → Registry W → Registry W
  unfolding remove
  put id w l = (id, w) ∷ remove id l

  -- The order in which `Range` visits the entries is that of the list.
  abbrev pub ids : Registry W → List String
  ids [] = []
  ids ((key, w) ∷ l) = key ∷ ids l
