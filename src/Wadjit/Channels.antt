-- ===== src/Wadjit/Channels.antt =====
-- The two channels of a `Wadjit`, with their capacity, and `listenForResponses` (wadjit.go), which takes
-- responses from one to the other.
use wadjit.Prelude.{
  ℕ, Bool, true, false, ◌&&◌, Option, none, some, List, [], ◌∷◌, ◌++◌, length, ltb, if◌then◌else◌,
}

-- `gathered` and `exported` are what is in the channels, oldest first; `held` is the response that the
-- goroutine has received and not yet sent on. Both channels have the capacity that `New` gives them.
pub record Channels (R : Type 0) : Type 0 where
  pub capacity : ℕ
  pub gathered : List R
  pub gather_open : Bool
  pub held : Option R
  pub exported : List R
  pub canceled : Bool
  pub running : Bool

-- A choice of the `select` that can be taken, or the send after it.
pub data Choice : Type 0 where
  receives sees_done forwards : Choice

module _ {R : Type 0} where
  ended : Channels R → Channels R
  ended c = record c { running = false }

  -- The channel has a response, or is closed and empty.
  receive_step : Channels R → Option (Channels R)
  unfolding ended
  receive_step c = elim c.gathered [
    | [] ↦ if c.gather_open then none else some (ended c)
    | r ∷ rest ↦
        if c.canceled
        then some (ended (record c { gathered = rest }))
        else some (record c { gathered = rest; held = some r })
  ]

  sent_on : Channels R → Option (Channels R)
  sent_on c = elim c.held [
    | none ↦ none
    | some r ↦
        if ltb (length c.exported) c.capacity
        then some (record c { exported = c.exported ++ r ∷ []; held = none })
        else none
  ]

  -- One step of the goroutine, if the choice can be taken.
  unfoldable pub listen_for_responses : Choice → Channels R → Option (Channels R)
  unfolding ended receive_step sent_on
  listen_for_responses receives c =
      if c.running then elim c.held [ none ↦ receive_step c | some r ↦ none ] else none
  listen_for_responses sees_done c =
      if c.running && c.canceled
      then elim c.held [ none ↦ some (ended c) | some r ↦ none ]
      else none
  listen_for_responses forwards c = if c.running then sent_on c else none

  -- A send to a caller that waits: what is in the channel goes first.
  unfoldable pub hand_over : Channels R → Option (R × Channels R)
  hand_over c = elim c.exported [
    | [] ↦
        if c.running
        then elim c.held [ none ↦ none | some r ↦ some (r, record c { held = none }) ]
        else none
    | r ∷ rest ↦ none
  ]

  -- What the tasks, the caller and `Close` do to the channels.
  unfoldable pub submit : R → Channels R → Channels R
  submit r c = record c { gathered = c.gathered ++ r ∷ [] }

  unfoldable pub cancel : Channels R → Channels R
  cancel c = record c { canceled = true }

  unfoldable pub close_gather : Channels R → Channels R
  close_gather c = record c { gather_open = false }

  abbrev pub held_list : Option R → List R
  held_list none = []
  held_list (some r) = r ∷ []

  -- The channels as `New` makes them.
  abbrev pub empty : ℕ → Channels R
  empty capacity = record {
    capacity = capacity;
    gathered = [];
    gather_open = true;
    held = none;
    exported = [];
    canceled = false;
    running = true;
  }
