-- ===== src/Wadjit/Pump/Delivery.antt =====
-- That the goroutine `listenForResponses` delivers every response to a caller that goes on receiving
-- (wadjit.go).
use wadjit.Prelude.{
  ℕ, suc, ◌+◌, ◌*◌, ◌≤◌, ◌≡◌, ◌⊎◌, inl, sym, ap, ◌∙◌, Bool, true, false, some, List, [], ◌∷◌, ◌++◌,
  length, length-append, is_some, non_empty, ◌||◌, arith, if◌then◌else◌,
}
use mathlib.Core.List.{append_assoc, append-nil}
use wadjit.Wadjit.Channels.{
  Channels, Choice, receives, sees_done, forwards, listen_for_responses, hand_over, held_list,
}
use wadjit.Wadjit.Pump.{Reach, Ordered, Reach-Ordered}

module _ {R : Type 0} where
  -- Steps of the goroutine and of the caller, with the number of the steps and what the caller takes.
  pub data Drains (c : Channels R) : ℕ → List R → Channels R → Type 0 where
    stays : Drains c 0 [] c
    listens :
        {n : ℕ} {l : List R} {d e : Channels R} (choice : Choice)
        → Drains c n l d
        → listen_for_responses choice d ≡ some e
        → Drains c (suc n) l e
    takes :
        {n : ℕ} {l : List R} {d : Channels R} (r : R) (rest : List R)
        → Drains c n l d
        → d.exported ≡ r ∷ rest
        → Drains c (suc n) (l ++ r ∷ []) (record d { exported = rest })
    takes_direct :
        {n : ℕ} {l : List R} {d e : Channels R} (r : R)
        → Drains c n l d
        → hand_over d ≡ some (r, e)
        → Drains c (suc n) (l ++ r ∷ []) e

  -- A response in the first channel is received, sent on and taken.
  abbrev pub left : Channels R → ℕ
  left c =
      3 * length c.gathered
      + 2 * length (held_list c.held)
      + length c.exported
      + (if c.running then 1 else 0)

  -- The goroutine can receive or send, or the caller can take a response.
  abbrev pub can_go : Channels R → Bool
  can_go c =
      is_some (listen_for_responses receives c)
      || is_some (listen_for_responses forwards c)
      || is_some (hand_over c)
      || non_empty c.exported

  -- Nothing is lost.
  record IsWhole (submitted taken : List R) (c : Channels R) : Type 0 where
    canceled : c.canceled ≡ false
    parts : submitted ≡ (taken ++ c.exported) ++ (held_list c.held ++ c.gathered)
    running : (c.running ≡ true) ⊎ (held_list c.held ++ c.gathered ≡ [])

  listens-IsWhole :
      (s t : List R) (choice : Choice) (c d : Channels R)
      → listen_for_responses choice c ≡ some d
      → IsWhole s t c
      → IsWhole s t d × (suc (left d) ≤ left c)
  unfolding listen_for_responses
  listens-IsWhole s t receives c d h w = ground (arith, w.canceled, w.parts, w.running)
  listens-IsWhole s t sees_done c d h w = ground (arith, w.canceled)
  listens-IsWhole s t forwards c d h w = (
    record {
      canceled = ground (arith, w.canceled);
      parts = ground (
        arith,
        w.parts,
        append_assoc t c.exported (held_list c.held),
        append_assoc (t ++ c.exported) (held_list c.held) c.gathered,
      );
      running = ground (arith, w.running);
    },
    ground (arith, length-append c.exported (held_list c.held)),
  )

  takes-IsWhole :
      (s t rest : List R) (r : R) (c : Channels R)
      → c.exported ≡ r ∷ rest
      → IsWhole s t c
      → IsWhole s (t ++ r ∷ []) (record c { exported = rest })
  takes-IsWhole s t rest r c e w = record {
    canceled = w.canceled;
    parts =
        w.parts
        ∙ ap (λ l. l ++ (held_list c.held ++ c.gathered))
            (ap (λ l. t ++ l) e ∙ sym (append_assoc t (r ∷ []) rest));
    running = w.running;
  }

  takes_direct-IsWhole :
      (s t : List R) (r : R) (c d : Channels R)
      → hand_over c ≡ some (r, d)
      → IsWhole s t c
      → IsWhole s (t ++ r ∷ []) d × (suc (left d) ≤ left c)
  unfolding hand_over
  takes_direct-IsWhole s t r c d h w = (
    record {
      canceled = ground (arith, w.canceled);
      parts = ground (
        arith,
        w.parts,
        append_assoc (t ++ c.exported) (held_list c.held) c.gathered,
        append_assoc t c.exported (held_list c.held),
        append-nil t,
        append-nil (t ++ r ∷ []),
      );
      running = ground (arith, w.running);
    },
    ground arith,
  )

  IsWhole-done : (s t : List R) (c : Channels R) → IsWhole s t c → can_go c ≡ false → t ≡ s
  unfolding listen_for_responses hand_over
  IsWhole-done s t c w h = ground (arith, w.canceled, w.parts, w.running, append-nil t)

  Drains-IsWhole :
      (s t : List R) (c : Channels R) (n : ℕ) (l : List R) (d : Channels R)
      → IsWhole s t c
      → Drains c n l d
      → IsWhole s (t ++ l) d × (n + left d ≤ left c)
  Drains-IsWhole s t c n l d w stays = (rw (append-nil t) w, omega arith)
  Drains-IsWhole s t c n l d w (listens {n = m} {d = b} choice g h) =
      let before = Drains-IsWhole s t c m l b w g in
      let after = listens-IsWhole s (t ++ l) choice b d h before.0 in
      (after.0, omega (arith, before.1, after.1))
  Drains-IsWhole s t c n l d w (takes {n = m} {l = k} {d = b} r rest g e) =
      let before = Drains-IsWhole s t c m k b w g in
      (
        rw (← append_assoc t k (r ∷ [])) (takes-IsWhole s (t ++ k) rest r b e before.0),
        ground (arith, before.1),
      )
  Drains-IsWhole s t c n l d w (takes_direct {n = m} {l = k} {d = b} r g h) =
      let before = Drains-IsWhole s t c m k b w g in
      let after = takes_direct-IsWhole s (t ++ k) r b d h before.0 in
      (rw (← append_assoc t k (r ∷ [])) after.0, omega (arith, before.1, after.1))

  Ordered-IsWhole :
      (s t : List R) (c : Channels R)
      → Ordered s t c
      → c.running ≡ true
      → c.canceled ≡ false
      → IsWhole s t c
  Ordered-IsWhole s t c o running live = record {
    canceled = live;
    parts = o.parts ∙ ap (λ l. (t ++ c.exported) ++ l) (o.kept running);
    running = inl running;
  }

  -- Take any state that can be reached, with channels of any capacity, in which the goroutine runs and
  -- its context is not canceled, and let the goroutine and a caller that receives go on, in any order,
  -- while no task submits. They take at most as many steps as are left to the responses, and once none
  -- of them can take a step the caller has taken exactly the responses that were submitted, in their
  -- order.
  pub Drains-delivers :
      (capacity : ℕ) (submitted taken : List R) (c : Channels R)
      → Reach capacity submitted taken c
      → c.running ≡ true
      → c.canceled ≡ false
      → (n : ℕ) (l : List R) (d : Channels R) → Drains c n l d
      → (n ≤ left c) × (can_go d ≡ false → taken ++ l ≡ submitted)
  Drains-delivers capacity s t c r running live n l d g =
      let whole = Ordered-IsWhole s t c (Reach-Ordered capacity s t c r) running live in
      let after = Drains-IsWhole s t c n l d whole g in
      (omega (arith, after.1), IsWhole-done s (t ++ l) d after.0)
