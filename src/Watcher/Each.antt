-- ===== src/Watcher/Each.antt =====
-- One call per task: the calls are made whatever the errors, and the errors are joined.
use wadjit.Prelude.{◌≡◌, refl, ap, Option, none, List, [], ◌∷◌, map, arith}
use wadjit.GoError.{GoError}
use wadjit.Watcher.{join_if, each}

-- No call of `f` on a task reports an error.
abbrev pub AllWell : {T : Type 0} → (T → T × Option GoError) → List T → Type 0
AllWell f [] = Unit {0}
AllWell f (t ∷ ts) = ((f t).1 ≡ none) × AllWell f ts

pub each-map :
    {T : Type 0} (f : T → T × Option GoError) (ts : List T) (errs : Option GoError)
    → (each f ts errs).0 ≡ map (λ t. (f t).0) ts
unfolding each
each-map f [] errs = refl
each-map f (t ∷ ts) errs = ap (λ l. (f t).0 ∷ l) (each-map f ts (join_if errs (f t).1))

join_if-none : (errs e : Option GoError) → join_if errs e ≡ none → (errs ≡ none) × (e ≡ none)
unfolding join_if
join_if-none errs e h = ground arith

pub each_sound :
    {T : Type 0} (f : T → T × Option GoError) (ts : List T) (errs : Option GoError)
    → (each f ts errs).1 ≡ none
    → (errs ≡ none) × AllWell f ts
unfolding each
each_sound f [] errs h = (h, tt)
each_sound f (t ∷ ts) errs h =
    let rest = each_sound f ts (join_if errs (f t).1) h in
    let here = join_if-none errs (f t).1 rest.0 in (here.0, (here.1, rest.1))

pub each_complete :
    {T : Type 0} (f : T → T × Option GoError) (ts : List T)
    → AllWell f ts
    → (each f ts none).1 ≡ none
unfolding each
each_complete f [] h = refl
each_complete f (t ∷ ts) h = rw h.0 (each_complete f ts h.1)
