-- ===== src/Wadjit/Pump.antt =====
-- What the goroutine `listenForResponses` (wadjit.go) does to the responses that tasks submit. A task, the
-- caller and the goroutine send and receive in any order, over channels that are full at the capacity;
-- with no capacity a response goes from hand to hand.
pub mod Bounds
pub mod Delivery
pub mod Shutdown
use wadjit.Prelude.{
  ℕ, ◌<◌, ◌≤◌, ◌≡◌, refl, sym, ap, ◌∙◌, true, Option, none, some, List, [], ◌∷◌, ◌++◌, length,
  arith,
}
use mathlib.Core.List.{append_assoc, append-nil}
use wadjit.Wadjit.Channels.{
  Channels, Choice, receives, sees_done, forwards, listen_for_responses, hand_over, submit, cancel,
  close_gather, held_list, empty,
}

module _ {R : Type 0} where
  -- The channels that can be reached, with all responses that tasks have submitted and all that the
  -- caller has taken.
  pub data Reach (capacity : ℕ) : List R → List R → Channels R → Type 0 where
    here : Reach capacity [] [] (empty capacity)
    submits :
        {submitted taken : List R} {c : Channels R} (r : R)
        → Reach capacity submitted taken c
        → c.gather_open ≡ true
        → length c.gathered < c.capacity
        → Reach capacity (submitted ++ r ∷ []) taken (submit r c)
    submits_direct :
        {submitted taken : List R} {c d : Channels R} (r : R)
        → Reach capacity submitted taken c
        → c.gather_open ≡ true
        → c.gathered ≡ []
        → listen_for_responses receives (submit r c) ≡ some d
        → Reach capacity (submitted ++ r ∷ []) taken d
    listens :
        {submitted taken : List R} {c d : Channels R} (choice : Choice)
        → Reach capacity submitted taken c
        → listen_for_responses choice c ≡ some d
        → Reach capacity submitted taken d
    takes :
        {submitted taken : List R} {c : Channels R} (r : R) (rest : List R)
        → Reach capacity submitted taken c
        → c.exported ≡ r ∷ rest
        → Reach capacity submitted (taken ++ r ∷ []) (record c { exported = rest })
    takes_direct :
        {submitted taken : List R} {c d : Channels R} (r : R)
        → Reach capacity submitted taken c
        → hand_over c ≡ some (r, d)
        → Reach capacity submitted (taken ++ r ∷ []) d
    cancels :
        {submitted taken : List R} {c : Channels R}
        → Reach capacity submitted taken c
        → Reach capacity submitted taken (cancel c)
    closes :
        {submitted taken : List R} {c : Channels R}
        → Reach capacity submitted taken c
        → Reach capacity submitted taken (close_gather c)

  -- What was taken and what waits in the second channel, then what was held or waits in the first. A
  -- goroutine that has ended may have dropped a part.
  pub record Ordered (submitted taken : List R) (c : Channels R) : Type 0 where
    pub rest : List R
    pub parts : submitted ≡ (taken ++ c.exported) ++ rest
    pub kept : c.running ≡ true → rest ≡ held_list c.held ++ c.gathered

  listen-Ordered :
      (submitted taken : List R) (choice : Choice) (c d : Channels R)
      → listen_for_responses choice c ≡ some d
      → Ordered submitted taken c
      → Ordered submitted taken d
  unfolding listen_for_responses
  listen-Ordered submitted taken receives c d h o = record {
    rest = o.rest;
    parts = ground arith;
    kept = ground arith;
  }
  listen-Ordered submitted taken sees_done c d h o = record {
    rest = o.rest;
    parts = ground arith;
    kept = ground arith;
  }
  listen-Ordered submitted taken forwards c d h o = record {
    rest = c.gathered;
    parts = ground (
      arith,
      append_assoc taken c.exported (held_list c.held),
      append_assoc (taken ++ c.exported) (held_list c.held) c.gathered,
    );
    kept = ground arith;
  }

  submit-Ordered :
      (submitted taken : List R) (r : R) (c : Channels R)
      → Ordered submitted taken c
      → Ordered (submitted ++ r ∷ []) taken (submit r c)
  unfolding submit
  submit-Ordered submitted taken r c o = record {
    rest = o.rest ++ r ∷ [];
    parts = ap (λ l. l ++ r ∷ []) o.parts ∙ append_assoc (taken ++ c.exported) o.rest (r ∷ []);
    kept = λ running.
        ap (λ l. l ++ r ∷ []) (o.kept running)
        ∙ append_assoc (held_list c.held) c.gathered (r ∷ []);
  }

  take-Ordered :
      (submitted taken rest : List R) (r : R) (c : Channels R)
      → c.exported ≡ r ∷ rest
      → Ordered submitted taken c
      → Ordered submitted (taken ++ r ∷ []) (record c { exported = rest })
  take-Ordered submitted taken rest r c e o = record {
    rest = o.rest;
    parts =
        o.parts
        ∙ ap (λ l. l ++ o.rest) (ap (λ l. taken ++ l) e ∙ sym (append_assoc taken (r ∷ []) rest));
    kept = o.kept;
  }

  hand_over-Ordered :
      (submitted taken : List R) (r : R) (c d : Channels R)
      → hand_over c ≡ some (r, d)
      → Ordered submitted taken c
      → Ordered submitted (taken ++ r ∷ []) d
  unfolding hand_over
  hand_over-Ordered submitted taken r c d h o = record {
    rest = c.gathered;
    parts = ground (
      arith,
      append_assoc (taken ++ c.exported) (held_list c.held) c.gathered,
      append_assoc taken c.exported (held_list c.held),
      append-nil taken,
      append-nil (taken ++ r ∷ []),
    );
    kept = ground arith;
  }

  -- Whatever the capacity of the channels, and whatever order the tasks submit in, the caller takes
  -- in, and the goroutine is scheduled, canceled and closed in: the responses that the caller has
  -- taken and those that wait for it are the first of the submitted ones, in their order, none twice;
  -- and while the goroutine runs, the rest are exactly those that it holds and those that wait for it.
  pub Reach-Ordered :
      (capacity : ℕ) (submitted taken : List R) (c : Channels R)
      → Reach capacity submitted taken c
      → Ordered submitted taken c
  unfolding cancel close_gather
  Reach-Ordered n submitted taken c here = record { rest = []; parts = refl; kept = λ h. refl }
  Reach-Ordered n submitted taken c (submits {submitted = s} {c = d} r q o room) =
      submit-Ordered s taken r d (Reach-Ordered n s taken d q)
  Reach-Ordered n submitted taken c (submits_direct {submitted = s} {c = b} r q o e h) =
      listen-Ordered submitted taken receives (submit r b) c h
        (submit-Ordered s taken r b (Reach-Ordered n s taken b q))
  Reach-Ordered n submitted taken c (listens {c = b} choice q h) =
      listen-Ordered submitted taken choice b c h (Reach-Ordered n submitted taken b q)
  Reach-Ordered n submitted taken c (takes {taken = t} {c = d} r rest q e) =
      take-Ordered submitted t rest r d e (Reach-Ordered n submitted t d q)
  Reach-Ordered n submitted taken c (takes_direct {taken = t} {c = b} r q h) =
      hand_over-Ordered submitted t r b c h (Reach-Ordered n submitted t b q)
  Reach-Ordered n submitted taken c (cancels {c = d} q) =
      let o = Reach-Ordered n submitted taken d q in
      record { rest = o.rest; parts = o.parts; kept = o.kept }
  Reach-Ordered n submitted taken c (closes {c = d} q) =
      let o = Reach-Ordered n submitted taken d q in
      record { rest = o.rest; parts = o.parts; kept = o.kept }
