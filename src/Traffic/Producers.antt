-- ===== src/Traffic/Producers.antt =====
-- Each statement of the two producers of trafficsim.c keeps the invariant of the simulation.
use operating_system_impleme.Prelude.{arith, false, refl, ◌+◌, ◌≡◌, ◌≤◌}
use operating_system_impleme.Traffic.{
  Flag, Producer, Road, Sems, arrive, at_empty, at_mutex, empty, full, idle, inside, leaving, lower,
  mutex, north, producer, raise, signalling, south,
}
use operating_system_impleme.Traffic.Roads.{
  announced, at, producer-moves, IsRoad-at_empty, IsRoad-inside, IsRoad-signalling, unsignalled,
}
use operating_system_impleme.Traffic.Mutex.{locked, locked_flag, mutex-down, mutex-up}
use operating_system_impleme.Traffic.Invariant.{
  IsMutex-eq, IsTraffic, awake-IsRoad, locked-bound, locked_flag-bound,
}

module _ (v : Sems) (r other : Road) (f : Flag) (awake : v.asleep (producer north) ≡ false) where
  pub north-at_empty :
      IsTraffic v (at at_empty r) other f
      → IsTraffic (lower (producer north) (empty north) v) (at at_mutex r) other f
  north-at_empty h = record {
    northern = rw awake (
        IsRoad-at_empty north _ _ (at at_empty r) f refl
          (awake-IsRoad north _ _ _ f _ awake h.northern));
    southern = h.southern;
    lock = h.lock;
    waits = h.waits;
  }

  pub north-at_mutex :
      IsTraffic v (at at_mutex r) other f
      → IsTraffic (lower (producer north) mutex v) (at inside r) other f
  north-at_mutex h = record {
    northern =
        producer-moves north _ _ (at at_mutex r) f inside _ refl refl
          (awake-IsRoad north _ _ _ f _ awake h.northern);
    southern = h.southern;
    lock =
        let few : locked other.pc + locked_flag f ≤ 2 =
          omega (arith, locked-bound other.pc, locked_flag-bound f) in
        IsMutex-eq _ _ _ _ _ (omega arith) (rw awake (omega arith))
          (mutex-down (v.value mutex) _ _ (omega (arith, few)) h.lock);
    waits = h.waits;
  }

  pub north-inside : IsTraffic v (at inside r) other f → IsTraffic v (arrive (at inside r)) other f
  unfolding arrive
  north-inside h = record {
    northern =
        IsRoad-inside north _ _ (at inside r) f _ refl
          (awake-IsRoad north _ _ _ f _ awake h.northern);
    southern = h.southern;
    lock = h.lock;
    waits = h.waits;
  }

  pub north-leaving :
      IsTraffic v (at leaving r) other f → IsTraffic (raise mutex v) (at signalling r) other f
  north-leaving h = record {
    northern =
        producer-moves north _ _ (at leaving r) f signalling _ refl refl
          (awake-IsRoad north _ _ _ f _ awake h.northern);
    southern = h.southern;
    lock =
        mutex-up (v.value mutex) _ _
          (IsMutex-eq _ _ _ _ _ (omega arith) (rw awake (omega arith)) h.lock);
    waits = h.waits;
  }

  pub north-signalling :
      IsTraffic v (at signalling r) other f → IsTraffic (raise (full north) v) (at idle r) other f
  north-signalling h = record {
    northern =
        IsRoad-signalling north _ _ (at signalling r) f _ refl
          (awake-IsRoad north _ _ _ f _ awake h.northern);
    southern = h.southern;
    lock = h.lock;
    waits = h.waits;
  }

  pub north-idle :
      (pc : Producer)
      → locked pc ≡ 0
      → announced pc ≡ 0
      → unsignalled pc ≡ 0
      → IsTraffic v (at idle r) other f
      → IsTraffic v (at pc r) other f
  north-idle pc l a u h = record {
    northern =
        producer-moves north _ _ (at idle r) f pc _ a u
          (awake-IsRoad north _ _ _ f _ awake h.northern);
    southern = h.southern;
    lock = IsMutex-eq _ _ _ _ _ (omega (arith, l)) (rw l refl) h.lock;
    waits = h.waits;
  }

module _ (v : Sems) (r other : Road) (f : Flag) (awake : v.asleep (producer south) ≡ false) where
  pub south-at_empty :
      IsTraffic v other (at at_empty r) f
      → IsTraffic (lower (producer south) (empty south) v) other (at at_mutex r) f
  south-at_empty h = record {
    southern = rw awake (
        IsRoad-at_empty south _ _ (at at_empty r) f refl
          (awake-IsRoad south _ _ _ f _ awake h.southern));
    northern = h.northern;
    lock = h.lock;
    waits = h.waits;
  }

  pub south-at_mutex :
      IsTraffic v other (at at_mutex r) f
      → IsTraffic (lower (producer south) mutex v) other (at inside r) f
  south-at_mutex h = record {
    southern =
        producer-moves south _ _ (at at_mutex r) f inside _ refl refl
          (awake-IsRoad south _ _ _ f _ awake h.southern);
    northern = h.northern;
    lock =
        let few : locked other.pc + locked_flag f ≤ 2 =
          omega (arith, locked-bound other.pc, locked_flag-bound f) in
        IsMutex-eq _ _ _ _ _ (omega arith) (rw awake (omega arith))
          (mutex-down (v.value mutex) _ _ (omega (arith, few)) h.lock);
    waits = h.waits;
  }

  pub south-inside : IsTraffic v other (at inside r) f → IsTraffic v other (arrive (at inside r)) f
  unfolding arrive
  south-inside h = record {
    southern =
        IsRoad-inside south _ _ (at inside r) f _ refl
          (awake-IsRoad south _ _ _ f _ awake h.southern);
    northern = h.northern;
    lock = h.lock;
    waits = h.waits;
  }

  pub south-leaving :
      IsTraffic v other (at leaving r) f → IsTraffic (raise mutex v) other (at signalling r) f
  south-leaving h = record {
    southern =
        producer-moves south _ _ (at leaving r) f signalling _ refl refl
          (awake-IsRoad south _ _ _ f _ awake h.southern);
    northern = h.northern;
    lock =
        mutex-up (v.value mutex) _ _
          (IsMutex-eq _ _ _ _ _ (omega arith) (rw awake (omega arith)) h.lock);
    waits = h.waits;
  }

  pub south-signalling :
      IsTraffic v other (at signalling r) f → IsTraffic (raise (full south) v) other (at idle r) f
  south-signalling h = record {
    southern =
        IsRoad-signalling south _ _ (at signalling r) f _ refl
          (awake-IsRoad south _ _ _ f _ awake h.southern);
    northern = h.northern;
    lock = h.lock;
    waits = h.waits;
  }

  pub south-idle :
      (pc : Producer)
      → locked pc ≡ 0
      → announced pc ≡ 0
      → unsignalled pc ≡ 0
      → IsTraffic v other (at idle r) f
      → IsTraffic v other (at pc r) f
  south-idle pc l a u h = record {
    southern =
        producer-moves south _ _ (at idle r) f pc _ a u
          (awake-IsRoad south _ _ _ f _ awake h.southern);
    northern = h.northern;
    lock = IsMutex-eq _ _ _ _ _ (omega (arith, l)) (rw l refl) h.lock;
    waits = h.waits;
  }
