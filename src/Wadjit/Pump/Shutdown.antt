-- ===== src/Wadjit/Pump/Shutdown.antt =====
-- How the goroutine `listenForResponses` ends after `Close` has canceled its context, for which `Close`
-- waits (wadjit.go).
use wadjit.Prelude.{
  ℕ, suc, ◌+◌, ◌≤◌, ◌<◌, ◌≡◌, ◌⊎◌, refl, Bool, true, false, none, some, List, ◌∷◌, length, is_some,
  ◌||◌, arith, if◌then◌else◌,
}
use wadjit.Wadjit.Channels.{
  Channels, Choice, receives, sees_done, forwards, listen_for_responses, hand_over, submit, cancel,
  close_gather, held_list,
}

module _ {R : Type 0} where
  -- Steps of the goroutine and, in between, of the tasks, of `Close` and, if there is one, of a caller
  -- that receives. The number counts those of the goroutine.
  pub data Goes (is_read : Bool) (c : Channels R) : ℕ → Channels R → Type 0 where
    stays : Goes is_read c 0 c
    listens :
        {n : ℕ} {d e : Channels R} (choice : Choice)
        → Goes is_read c n d
        → listen_for_responses choice d ≡ some e
        → Goes is_read c (suc n) e
    hands_over :
        {n : ℕ} {d e : Channels R} (r : R)
        → Goes is_read c n d
        → is_read ≡ true
        → hand_over d ≡ some (r, e)
        → Goes is_read c (suc n) e
    takes :
        {n : ℕ} {d : Channels R} (r : R) (rest : List R)
        → Goes is_read c n d
        → is_read ≡ true
        → d.exported ≡ r ∷ rest
        → Goes is_read c n (record d { exported = rest })
    submits : {n : ℕ} {d : Channels R} (r : R) → Goes is_read c n d → Goes is_read c n (submit r d)
    cancels : {n : ℕ} {d : Channels R} → Goes is_read c n d → Goes is_read c n (cancel d)
    closes : {n : ℕ} {d : Channels R} → Goes is_read c n d → Goes is_read c n (close_gather d)

  -- The steps that are left to the goroutine.
  abbrev left : Channels R → ℕ
  left c = if c.running then suc (length (held_list c.held)) else 0

  -- The context is canceled, and the response that is held, if there is one, can be sent on.
  pub record IsClosing (c : Channels R) : Type 0 where
    pub canceled : c.canceled ≡ true
    pub room : (c.held ≡ none) ⊎ (length c.exported < c.capacity)

  listens-IsClosing :
      (choice : Choice) (c d : Channels R)
      → listen_for_responses choice c ≡ some d
      → IsClosing c
      → IsClosing d × (suc (left d) ≤ left c)
  unfolding listen_for_responses
  listens-IsClosing receives c d h k = ground (arith, k.room)
  listens-IsClosing sees_done c d h k = ground (arith, k.room)
  listens-IsClosing forwards c d h k = ground (arith, k.room)

  hands_over-IsClosing :
      (r : R) (c d : Channels R)
      → hand_over c ≡ some (r, d)
      → IsClosing c
      → IsClosing d × (suc (left d) ≤ left c)
  unfolding hand_over
  hands_over-IsClosing r c d h k = ground (arith, k.room)

  -- Some step of the goroutine can be taken.
  abbrev pub can_go : Channels R → Bool
  can_go c = is_some (listen_for_responses sees_done c) || is_some (listen_for_responses forwards c)

  IsClosing-can_go : (c : Channels R) → IsClosing c → c.running ≡ true → can_go c ≡ true
  unfolding listen_for_responses
  IsClosing-can_go c k running = ground (arith, k.room, k.canceled)

  Goes-IsClosing :
      (is_read : Bool) (c : Channels R) (n : ℕ) (d : Channels R)
      → Goes is_read c n d
      → IsClosing c
      → IsClosing d × (n + left d ≤ left c)
  unfolding submit cancel close_gather
  Goes-IsClosing is_read c n d stays k = (k, omega arith)
  Goes-IsClosing is_read c n d (listens {n = m} {d = b} choice g h) k =
      let before = Goes-IsClosing is_read c m b g k in
      let after = listens-IsClosing choice b d h before.0 in
      (after.0, omega (arith, before.1, after.1))
  Goes-IsClosing is_read c n d (hands_over {n = m} {d = b} r g q h) k =
      let before = Goes-IsClosing is_read c m b g k in
      let after = hands_over-IsClosing r b d h before.0 in
      (after.0, omega (arith, before.1, after.1))
  Goes-IsClosing is_read c n d (takes {d = b} r rest g q e) k =
      let (i, bound) = Goes-IsClosing is_read c n b g k in
      (record { canceled = i.canceled; room = ground (arith, i.room) }, bound)
  Goes-IsClosing is_read c n d (submits {d = b} r g) k =
      let (i, bound) = Goes-IsClosing is_read c n b g k in
      (record { canceled = i.canceled; room = i.room }, bound)
  Goes-IsClosing is_read c n d (cancels {d = b} g) k =
      let (i, bound) = Goes-IsClosing is_read c n b g k in
      (record { canceled = refl; room = i.room }, bound)
  Goes-IsClosing is_read c n d (closes {d = b} g) k =
      let (i, bound) = Goes-IsClosing is_read c n b g k in
      (record { canceled = i.canceled; room = i.room }, bound)

  left-le-two : (c : Channels R) → left c ≤ 2
  left-le-two c = ground arith

  -- Let the context be canceled, and let the goroutine hold no response or have room for it in the
  -- channel of the caller. However the tasks, the caller and `Close` go on in between, the goroutine
  -- takes at most two more steps, and as long as it has not ended it can take one.
  pub Goes-ends :
      (is_read : Bool) (c : Channels R) (n : ℕ) (d : Channels R)
      → IsClosing c
      → Goes is_read c n d
      → (n ≤ 2) × (d.running ≡ true → can_go d ≡ true)
  Goes-ends is_read c n d k g =
      let after = Goes-IsClosing is_read c n d g k in
      (omega (arith, after.1, left-le-two c), IsClosing-can_go d after.0)

  -- The goroutine holds a response for which there is no room.
  pub record IsStuck (c : Channels R) : Type 0 where
    pub running : c.running ≡ true
    pub holds : is_some c.held ≡ true
    pub full : c.capacity ≤ length c.exported

  IsStuck-listens :
      (choice : Choice) (c : Channels R) → IsStuck c → listen_for_responses choice c ≡ none
  unfolding listen_for_responses
  IsStuck-listens receives c k = ground (arith, k.running, k.holds, k.full)
  IsStuck-listens sees_done c k = ground (arith, k.running, k.holds, k.full)
  IsStuck-listens forwards c k = ground (arith, k.running, k.holds, k.full)

  -- Let the goroutine hold a response while the channel of the caller is full, and let nobody receive
  -- from it any more. Whatever the tasks and `Close` do, the goroutine takes no step and never ends,
  -- also after its context is canceled.
  pub Goes-IsStuck :
      (c : Channels R) (n : ℕ) (d : Channels R) → IsStuck c → Goes false c n d → (n ≡ 0) × IsStuck d
  unfolding submit cancel close_gather
  Goes-IsStuck c n d k stays = (refl, k)
  Goes-IsStuck c n d k (listens {n = m} {d = b} choice g h) =
      cc (IsStuck-listens choice b (Goes-IsStuck c m b k g).1, h)
  Goes-IsStuck c n d k (hands_over r g q h) = cc q
  Goes-IsStuck c n d k (takes r rest g q e) = cc q
  Goes-IsStuck c n d k (submits {d = b} r g) =
      let (z, i) = Goes-IsStuck c n b k g in
      (z, record { running = i.running; holds = i.holds; full = i.full })
  Goes-IsStuck c n d k (cancels {d = b} g) =
      let (z, i) = Goes-IsStuck c n b k g in
      (z, record { running = i.running; holds = i.holds; full = i.full })
  Goes-IsStuck c n d k (closes {d = b} g) =
      let (z, i) = Goes-IsStuck c n b k g in
      (z, record { running = i.running; holds = i.holds; full = i.full })
