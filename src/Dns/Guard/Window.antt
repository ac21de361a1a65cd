-- ===== src/Dns/Guard/Window.antt =====
-- The guard rail acts only on failures that follow one another, all of them in the window of the
-- first.
use mathlib.Core.List.{append-nil, append_assoc}
use wadjit.Prelude.{
  ℕ, ◌≤◌, ◌≡◌, refl, sym, ap, ◌∙◌, ◌⊎◌, inl, inr, Bool, true, false, ◌||◌, ◌&&◌, List, [], ◌∷◌,
  ◌++◌, arith, ltb_ℤ, leb_ℤ, pos, ◌≤ℤ◌, ◌<ℤ◌, length, length-append, Bool-cases,
}
use wadjit.Clock.{Time, Duration, zero_time, sub, is_zero}
use wadjit.Dns.Manager.{DnsPolicyManager, GuardRailState}
use wadjit.Dns.Guard.{
  Observation, is_failure, open_window, count_failure, reset_guard, observe_result, observe_all,
}
use wadjit.Dns.Guard.Failures.{Burst, HasBurst, Opened, Burst-snoc, ActsAt, HasBurst-extend}

-- The failures that a guard rail's state stands for, at the end of the list `os`.
record Pending (os : List Observation) (g : GuardRailState) : Type 0 where
  before : List Observation
  burst : List Observation
  parts : os ≡ before ++ burst
  counted : g.count ≡ length burst
  is_burst : Burst g.policy.window burst
  opened : pos 0 <ℤ g.policy.window → Opened burst g.first_failure

abbrev opens : Time → GuardRailState → Bool
opens now g =
    ltb_ℤ (pos 0) g.policy.window
    && (is_zero g.first_failure || ltb_ℤ g.policy.window (sub now g.first_failure))

policy-open_window : (now : Time) (g : GuardRailState) → (open_window now g).policy ≡ g.policy
unfolding open_window
policy-open_window now g = ground arith

triggered-open_window :
    (now : Time) (g : GuardRailState) → (open_window now g).triggered ≡ g.triggered
unfolding open_window
triggered-open_window now g = ground arith

first_failure-open_window :
    (now : Time) (g : GuardRailState)
    → opens now g ≡ false
    → pos 0 <ℤ g.policy.window
    → ((open_window now g).first_failure ≡ g.first_failure)
      × (is_zero g.first_failure ≡ false)
      × (sub now g.first_failure ≤ℤ g.policy.window)
unfolding open_window
first_failure-open_window now g h w = ground arith

Opened-snoc :
    (b : List Observation) (o : Observation) (t : Time)
    → is_zero t ≡ false
    → Opened b t
    → Opened (b ++ o ∷ []) t
Opened-snoc [] o t z e = absurd (ground (arith, e))
Opened-snoc (x ∷ b) o t z e = e

module _ (os : List Observation) (o : Observation) (g : GuardRailState)
    (failure : is_failure o.status o.result_err ≡ true) where
  Pending-opened :
      opens o.at g ≡ true → Pending (os ++ o ∷ []) (count_failure o.at (open_window o.at g))
  unfolding count_failure open_window
  Pending-opened h = record {
    before = os;
    burst = o ∷ [];
    parts = refl;
    counted = ground arith;
    is_burst = (failure, tt);
    opened = ground arith;
  }

  Pending-kept :
      opens o.at g ≡ false
      → Pending os g
      → Pending (os ++ o ∷ []) (count_failure o.at (open_window o.at g))
  unfolding count_failure open_window
  Pending-kept h p = record {
    before = p.before;
    burst = p.burst ++ o ∷ [];
    parts = ap (λ l. l ++ o ∷ []) p.parts ∙ append_assoc p.before p.burst (o ∷ []);
    counted = ground (arith, length-append p.burst (o ∷ []), p.counted);
    is_burst = rw (policy-open_window o.at g) (
        Burst-snoc g.policy.window g.first_failure p.burst o p.is_burst failure
          λ w. (p.opened w, (first_failure-open_window o.at g h w).2));
    opened = rw (policy-open_window o.at g) λ w.
        let (same, set, near) = first_failure-open_window o.at g h w in
        rw same (Opened-snoc p.burst o g.first_failure set (p.opened w));
  }

  -- However the window stands, a failure is counted at the end of a burst.
  Pending-failure : Pending os g → Pending (os ++ o ∷ []) (count_failure o.at (open_window o.at g))
  Pending-failure p = elim (Bool-cases (opens o.at g)) [
    | inl h ↦ Pending-opened h
    | inr h ↦ Pending-kept h p
  ]

Pending-reset :
    (os : List Observation) (g : GuardRailState)
    → g.count ≡ 0
    → g.first_failure ≡ zero_time
    → Pending os g
Pending-reset os g c f = record {
  before = os;
  burst = [];
  parts = sym (append-nil os);
  counted = c;
  is_burst = tt;
  opened = λ w. f;
}

Pending-HasBurst :
    (n : ℕ) (os : List Observation) (g : GuardRailState)
    → Pending os g
    → n ≤ g.count
    → HasBurst n g.policy.window os
Pending-HasBurst n os g p h = record {
  before = p.before;
  burst = p.burst;
  rest = [];
  parts = rw append-nil p.parts;
  long = omega (arith, p.counted);
  is_burst = p.is_burst;
}

-- The guard rail has not acted, and its state stands for the end of `os`.
record Quiet (n : ℕ) (w : Duration) (os : List Observation) (m : DnsPolicyManager) : Type 0 where
  acts_at : ActsAt n m.guard
  windowed : m.guard.policy.window ≡ w
  untriggered : m.guard.triggered ≡ false
  pending : Pending os m.guard

observe-success :
    (n : ℕ) (w : Duration) (os : List Observation) (o : Observation) (m : DnsPolicyManager)
    → is_failure o.status o.result_err ≡ false
    → Quiet n w os m
    → Quiet n w (os ++ o ∷ []) (observe_result o.at o.status o.result_err m)
unfolding observe_result
observe-success n w os o m s q =
    rw (q.acts_at.on, s)
      (record {
        acts_at = record { on = q.acts_at.on; threshold = q.acts_at.threshold };
        windowed = q.windowed;
        untriggered = q.untriggered;
        pending = Pending-reset (os ++ o ∷ []) (reset_guard m).guard refl refl;
      })

abbrev counted : Observation → DnsPolicyManager → DnsPolicyManager
counted o m = record m { guard = count_failure o.at (open_window o.at m.guard) }

counted-Quiet :
    (n : ℕ) (w : Duration) (os : List Observation) (o : Observation) (m : DnsPolicyManager)
    → is_failure o.status o.result_err ≡ true
    → Quiet n w os m
    → Quiet n w (os ++ o ∷ []) (counted o m)
unfolding count_failure
counted-Quiet n w os o m f q =
    let same = policy-open_window o.at m.guard in
    record {
      acts_at = record { on = rw same q.acts_at.on; threshold = rw same q.acts_at.threshold };
      windowed = rw same q.windowed;
      untriggered = rw (triggered-open_window o.at m.guard) q.untriggered;
      pending = Pending-failure os o m.guard f q.pending;
    }

-- After one more result the guard rail is still quiet, or it has seen a burst.
observe-Quiet :
    (n : ℕ) (w : Duration) (os : List Observation) (o : Observation) (m : DnsPolicyManager)
    → Quiet n w os m
    → Quiet n w (os ++ o ∷ []) (observe_result o.at o.status o.result_err m)
      ⊎ HasBurst n w (os ++ o ∷ [])
unfolding observe_result
observe-Quiet n w os o m q = elim (Bool-cases (is_failure o.status o.result_err)) [
  | inr s ↦ inl (observe-success n w os o m s q)
  | inl f ↦
      let next = counted-Quiet n w os o m f q in
      elim (Bool-cases
        (leb_ℤ m.guard.policy.consecutive_error_threshold (pos (counted o m).guard.count))) [
          | inl full ↦ inr (
              rw (← next.windowed) (
                Pending-HasBurst n (os ++ o ∷ []) (counted o m).guard next.pending
                  (ground (arith, q.acts_at.threshold, full))))
          | inr below ↦ inl (rw (q.acts_at.on, f, below) next)
        ]
]

observe_all-HasBurst :
    (n : ℕ) (w : Duration) (os : List Observation) (rest : List Observation) (m : DnsPolicyManager)
    → Quiet n w os m
    → (observe_all rest m).guard.triggered ≡ true
    → HasBurst n w (os ++ rest)
unfolding observe_all
observe_all-HasBurst n w os [] m q t = cc (q.untriggered)
observe_all-HasBurst n w os (o ∷ rest) m q t = elim (observe-Quiet n w os o m q) [
  | inl q' ↦ rw (← append_assoc os (o ∷ []) rest) (
      observe_all-HasBurst n w (os ++ o ∷ []) rest (observe_result o.at o.status o.result_err m) q'
        t)
  | inr h ↦ rw (← append_assoc os (o ∷ []) rest) (HasBurst-extend n w (os ++ o ∷ []) rest h)
]

-- Let the guard rail be enabled with threshold n, its counters reset and its trigger down. If the
-- results `os` raise the trigger, then n of them at least, in a row, are failures, and with a window
-- each of these was observed within the window of the first.
pub triggered-HasBurst :
    (n : ℕ) (m : DnsPolicyManager) (os : List Observation)
    → ActsAt n m.guard
    → m.guard.triggered ≡ false
    → m.guard.count ≡ 0
    → m.guard.first_failure ≡ zero_time
    → (observe_all os m).guard.triggered ≡ true
    → HasBurst n m.guard.policy.window os
triggered-HasBurst n m os a u c f = observe_all-HasBurst n m.guard.policy.window [] os m (record {
  acts_at = a;
  windowed = refl;
  untriggered = u;
  pending = Pending-reset [] m.guard c f;
})
