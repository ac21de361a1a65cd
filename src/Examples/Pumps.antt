-- ===== src/Examples/Pumps.antt =====
-- The channels of a Wadjit with room for one response, and with room for none.
use wadjit.Prelude.{ℕ, ◌≤◌, ◌≡◌, refl, true, false, none, some, List, [], ◌∷◌, arith, inr}
use wadjit.Wadjit.Channels
use wadjit.Wadjit.Channels.{Channels, listen_for_responses, hand_over, submit, cancel, close_gather}
use wadjit.Wadjit.Pump
use wadjit.Wadjit.Pump.{Ordered, Reach-Ordered}
use wadjit.Wadjit.Pump.Delivery
use wadjit.Wadjit.Pump.Delivery.{left, Drains-delivers}
use wadjit.Wadjit.Pump.Shutdown
use wadjit.Wadjit.Pump.Shutdown.{can_go, IsStuck, Goes-ends, Goes-IsStuck}

-- Of two responses one is taken, and the other is held.
abbrev channels : Channels ℕ
channels = record (Channels.empty {R = ℕ} 1) { held = some 2 }

delivered : Pump.Reach 1 (1 ∷ 2 ∷ []) (1 ∷ []) channels
unfolding listen_for_responses submit
delivered =
    Pump.takes 1 []
      (Pump.submits_direct 2
        (Pump.listens Channels.forwards
          (Pump.listens Channels.receives (Pump.submits 1 Pump.here refl (omega arith)) refl) refl)
        refl refl refl)
      refl

Reach-Ordered_example : Ordered (1 ∷ 2 ∷ []) (1 ∷ []) channels
Reach-Ordered_example = Reach-Ordered 1 (1 ∷ 2 ∷ []) (1 ∷ []) channels delivered

-- The response that is held goes to a caller that waits.
Drains-delivers_example :
    (1 ≤ left channels)
    × (Delivery.can_go (record channels { held = none }) ≡ false
        → ◌≡◌ {A = List ℕ} (1 ∷ 2 ∷ []) (1 ∷ 2 ∷ []))
unfolding hand_over
Drains-delivers_example =
    Drains-delivers 1 (1 ∷ 2 ∷ []) (1 ∷ []) channels delivered refl refl 1 (2 ∷ [])
      (record channels { held = none }) (Delivery.takes_direct 2 Delivery.stays refl)

-- With no room a response goes from hand to hand.
handed : Pump.Reach 0 (7 ∷ []) (7 ∷ []) (Channels.empty {R = ℕ} 0)
unfolding listen_for_responses submit hand_over
handed = Pump.takes_direct 7 (Pump.submits_direct 7 Pump.here refl refl refl) refl

-- The goroutine sends on what it holds and then sees that the context is canceled.
abbrev closing : Channels ℕ
closing = record channels { canceled = true }

abbrev closed : Channels ℕ
closed = record closing { held = none; exported = 2 ∷ []; running = false }

Goes-ends_example : (2 ≤ 2) × (closed.running ≡ true → can_go closed ≡ true)
unfolding listen_for_responses
Goes-ends_example =
    Goes-ends true closing 2 closed (record { canceled = refl; room = inr (omega arith) })
      (Shutdown.listens Channels.sees_done (Shutdown.listens Channels.forwards Shutdown.stays refl)
        refl)

-- The channel of the caller is full.
abbrev stuck : Channels ℕ
stuck = record channels { exported = 1 ∷ [] }

Goes-IsStuck_example : ◌≡◌ {A = ℕ} 0 0 × IsStuck (close_gather (cancel stuck))
Goes-IsStuck_example =
    Goes-IsStuck stuck 0 (close_gather (cancel stuck))
      (record { running = refl; holds = refl; full = omega arith })
      (Shutdown.closes (Shutdown.cancels Shutdown.stays))
