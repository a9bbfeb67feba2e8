-- ===== src/Traffic/FlagPerson.antt =====
-- Each statement of the flag person of trafficsim.c keeps the invariant of the simulation.
use mathlib.Core.Bool.{true≢false}
use operating_system_impleme.Prelude.{
  Bool, arith, false, inl, inr, int_pred, int_pred_parts, is_negative, is_negative_parts, neg_part,
  pos_part, refl, sym, ℕ, ℤ, ◌+◌, ◌<◌, ◌||◌, ◌∙◌, ◌≡◌, ◌≤◌,
}
use operating_system_impleme.Traffic.{
  Flag, Road, Sems, Side, empty, entering, flagperson, freeing, full, lower, mutex, north, passing,
  raise, removing, south, taking, testing,
}
use operating_system_impleme.Traffic.Roads.{
  claimed, flag-moves, IsRoad-freeing, IsRoad-removing, IsRoad-taking, unfreed,
}
use operating_system_impleme.Traffic.Mutex.{locked, locked_flag, mutex-down, mutex-up}
use operating_system_impleme.Traffic.Invariant.{IsMutex-eq, IsTraffic, locked-bound}

-- down(full) does not put the flag person to sleep when a car is there.
stays_awake :
    (b : Bool) (vf : ℤ)
    → b ≡ false
    → 0 < pos_part vf
    → neg_part vf ≡ 0
    → (b || is_negative (int_pred vf)) ≡ false
stays_awake b vf e h low =
    let (p, n) = int_pred_parts vf (omega (arith, low)) in
    elim (is_negative_parts (int_pred vf)) [
      | inl (neg, c) ↦ absurd (omega (arith, n, low, c, h))
      | inr (nonneg, c) ↦ rw (e, nonneg) refl
    ]

locked-two : (n s : Road) → locked n.pc + locked s.pc ≤ 2
locked-two n s = omega (arith, locked-bound n.pc, locked-bound s.pc)

module _ (v : Sems) (n s : Road) where
  -- Between places where nothing is claimed and nothing is locked.
  pub flag-tests :
      (f f' : Flag)
      → locked_flag f ≡ 0
      → locked_flag f' ≡ 0
      → ((t : Side) → claimed t f' ≡ claimed t f)
      → ((t : Side) → unfreed t f' ≡ unfreed t f)
      → ((t : Side) → f' ≡ taking t → 0 < pos_part (v.value (full t)))
      → v.asleep flagperson ≡ false
      → IsTraffic v n s f
      → IsTraffic v n s f'
  flag-tests f f' l l' c u ready awake h = record {
    northern = flag-moves north _ _ n f f' _ (c north) (u north) (ready north) h.northern;
    southern = flag-moves south _ _ s f f' _ (c south) (u south) (ready south) h.southern;
    lock = IsMutex-eq _ _ _ _ _ (omega (arith, l, l')) (rw (l, l') refl) h.lock;
    waits = λ a. absurd (true≢false (sym a ∙ awake));
  }

module _ (v : Sems) (n s : Road) (awake : v.asleep flagperson ≡ false) where
  pub north-taking :
      IsTraffic v n s (taking north)
      → IsTraffic (lower flagperson (full north) v) n s (entering north)
  north-taking h = record {
    northern = IsRoad-taking north _ _ n _ h.northern;
    southern =
        flag-moves south _ _ s (taking north) (entering north) _ refl refl (λ q. cc) h.southern;
    lock = h.lock;
    waits = λ a. absurd (
        true≢false (
          sym a
          ∙ stays_awake _ (v.value (full north)) awake (h.northern.ready refl)
              h.northern.full_low));
  }

  pub north-entering :
      IsTraffic v n s (entering north) → IsTraffic (lower flagperson mutex v) n s (removing north)
  north-entering h = record {
    northern =
        flag-moves north _ _ n (entering north) (removing north) _ refl refl (λ q. cc) h.northern;
    southern =
        flag-moves south _ _ s (entering north) (removing north) _ refl refl (λ q. cc) h.southern;
    lock =
        IsMutex-eq _ _ _ _ _ (omega arith) (rw awake (omega arith))
          (mutex-down (v.value mutex) _ _ (omega (arith, locked-two n s)) h.lock);
    waits = λ a. (north, refl);
  }

  pub north-removing :
      (car : ℕ)
      → IsTraffic v n s (removing north)
      → IsTraffic v (record n { con = n.con + 1 }) s (passing north car)
  north-removing car h = record {
    northern = IsRoad-removing north _ _ n _ car h.northern;
    southern =
        flag-moves south _ _ s (removing north) (passing north car) _ refl refl (λ q. cc)
          h.southern;
    lock = h.lock;
    waits = λ a. absurd (true≢false (sym a ∙ awake));
  }

  pub north-passing :
      (car : ℕ)
      → IsTraffic v n s (passing north car)
      → IsTraffic (raise mutex v) n s (freeing north)
  north-passing car h = record {
    northern =
        flag-moves north _ _ n (passing north car) (freeing north) _ refl refl (λ q. cc) h.northern;
    southern =
        flag-moves south _ _ s (passing north car) (freeing north) _ refl refl (λ q. cc) h.southern;
    lock =
        mutex-up (v.value mutex) _ _
          (IsMutex-eq _ _ _ _ _ (omega arith) (rw awake (omega arith)) h.lock);
    waits = λ a. absurd (true≢false (sym a ∙ awake));
  }

  pub north-freeing :
      IsTraffic v n s (freeing north) → IsTraffic (raise (empty north) v) n s (testing north)
  north-freeing h = record {
    northern = IsRoad-freeing north _ _ n _ h.northern;
    southern =
        flag-moves south _ _ s (freeing north) (testing north) _ refl refl (λ q. cc) h.southern;
    lock = h.lock;
    waits = λ a. absurd (true≢false (sym a ∙ awake));
  }

module _ (v : Sems) (n s : Road) (awake : v.asleep flagperson ≡ false) where
  pub south-taking :
      IsTraffic v n s (taking south)
      → IsTraffic (lower flagperson (full south) v) n s (entering south)
  south-taking h = record {
    southern = IsRoad-taking south _ _ s _ h.southern;
    northern =
        flag-moves north _ _ n (taking south) (entering south) _ refl refl (λ q. cc) h.northern;
    lock = h.lock;
    waits = λ a. absurd (
        true≢false (
          sym a
          ∙ stays_awake _ (v.value (full south)) awake (h.southern.ready refl)
              h.southern.full_low));
  }

  pub south-entering :
      IsTraffic v n s (entering south) → IsTraffic (lower flagperson mutex v) n s (removing south)
  south-entering h = record {
    northern =
        flag-moves north _ _ n (entering south) (removing south) _ refl refl (λ q. cc) h.northern;
    southern =
        flag-moves south _ _ s (entering south) (removing south) _ refl refl (λ q. cc) h.southern;
    lock =
        IsMutex-eq _ _ _ _ _ (omega arith) (rw awake (omega arith))
          (mutex-down (v.value mutex) _ _ (omega (arith, locked-two n s)) h.lock);
    waits = λ a. (south, refl);
  }

  pub south-removing :
      (car : ℕ)
      → IsTraffic v n s (removing south)
      → IsTraffic v n (record s { con = s.con + 1 }) (passing south car)
  south-removing car h = record {
    southern = IsRoad-removing south _ _ s _ car h.southern;
    northern =
        flag-moves north _ _ n (removing south) (passing south car) _ refl refl (λ q. cc)
          h.northern;
    lock = h.lock;
    waits = λ a. absurd (true≢false (sym a ∙ awake));
  }

  pub south-passing :
      (car : ℕ)
      → IsTraffic v n s (passing south car)
      → IsTraffic (raise mutex v) n s (freeing south)
  south-passing car h = record {
    northern =
        flag-moves north _ _ n (passing south car) (freeing south) _ refl refl (λ q. cc) h.northern;
    southern =
        flag-moves south _ _ s (passing south car) (freeing south) _ refl refl (λ q. cc) h.southern;
    lock =
        mutex-up (v.value mutex) _ _
          (IsMutex-eq _ _ _ _ _ (omega arith) (rw awake (omega arith)) h.lock);
    waits = λ a. absurd (true≢false (sym a ∙ awake));
  }

  pub south-freeing :
      IsTraffic v n s (freeing south) → IsTraffic (raise (empty south) v) n s (testing south)
  south-freeing h = record {
    southern = IsRoad-freeing south _ _ s _ h.southern;
    northern =
        flag-moves north _ _ n (freeing south) (testing south) _ refl refl (λ q. cc) h.northern;
    lock = h.lock;
    waits = λ a. absurd (true≢false (sym a ∙ awake));
  }
