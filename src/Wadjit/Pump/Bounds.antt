-- ===== src/Wadjit/Pump/Bounds.antt =====
-- What is in the channels of a Wadjit never exceeds their capacity (wadjit.go).
use wadjit.Prelude.{ℕ, ◌≤◌, ◌≡◌, refl, some, List, [], ◌∷◌, length, length-append, arith}
use wadjit.Wadjit.Channels.{
  Channels, Choice, receives, sees_done, forwards, listen_for_responses, hand_over, submit, cancel,
  close_gather, held_list,
}
use wadjit.Wadjit.Pump.{
  Reach, here, submits, submits_direct, listens, takes, takes_direct, cancels, closes,
}

module _ {R : Type 0} where
  pub record IsBounded (capacity : ℕ) (c : Channels R) : Type 0 where
    pub same : c.capacity ≡ capacity
    pub gathered : length c.gathered ≤ capacity
    pub exported : length c.exported ≤ capacity

  listen-IsBounded :
      (n : ℕ) (choice : Choice) (c d : Channels R)
      → listen_for_responses choice c ≡ some d
      → IsBounded n c
      → IsBounded n d
  unfolding listen_for_responses
  listen-IsBounded n receives c d h b = ground arith
  listen-IsBounded n sees_done c d h b = ground arith
  listen-IsBounded n forwards c d h b = ground (arith, length-append c.exported (held_list c.held))

  -- A response that is handed to the goroutine does not stay in the channel.
  direct-IsBounded :
      (n : ℕ) (r : R) (c d : Channels R)
      → c.gathered ≡ []
      → listen_for_responses receives (submit r c) ≡ some d
      → IsBounded n c
      → IsBounded n d
  unfolding listen_for_responses submit
  direct-IsBounded n r c d e h b = ground arith

  hand_over-IsBounded :
      (n : ℕ) (r : R) (c d : Channels R) → hand_over c ≡ some (r, d) → IsBounded n c → IsBounded n d
  unfolding hand_over
  hand_over-IsBounded n r c d h b = ground arith

  -- In every state that can be reached, neither channel holds more responses than its capacity.
  pub Reach-IsBounded :
      (n : ℕ) (submitted taken : List R) (c : Channels R)
      → Reach n submitted taken c
      → IsBounded n c
  unfolding submit cancel close_gather
  Reach-IsBounded n submitted taken c here = record {
    same = refl;
    gathered = omega arith;
    exported = omega arith;
  }
  Reach-IsBounded n submitted taken c (submits {submitted = s} {c = b} r q o room) =
      let i = Reach-IsBounded n s taken b q in
      record {
        same = i.same;
        gathered = ground (arith, length-append b.gathered (r ∷ []), i.same);
        exported = i.exported;
      }
  Reach-IsBounded n submitted taken c (submits_direct {submitted = s} {c = b} r q o e h) =
      direct-IsBounded n r b c e h (Reach-IsBounded n s taken b q)
  Reach-IsBounded n submitted taken c (listens {c = b} choice q h) =
      listen-IsBounded n choice b c h (Reach-IsBounded n submitted taken b q)
  Reach-IsBounded n submitted taken c (takes {taken = t} {c = b} r rest q e) =
      let i = Reach-IsBounded n submitted t b q in
      record { same = i.same; gathered = i.gathered; exported = ground (arith, i.exported) }
  Reach-IsBounded n submitted taken c (takes_direct {taken = t} {c = b} r q h) =
      hand_over-IsBounded n r b c h (Reach-IsBounded n submitted t b q)
  Reach-IsBounded n submitted taken c (cancels {c = b} q) =
      let i = Reach-IsBounded n submitted taken b q in
      record { same = i.same; gathered = i.gathered; exported = i.exported }
  Reach-IsBounded n submitted taken c (closes {c = b} q) =
      let i = Reach-IsBounded n submitted taken b q in
      record { same = i.same; gathered = i.gathered; exported = i.exported }
