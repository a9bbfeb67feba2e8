-- ===== src/Construction/North.antt =====
-- Each statement of the producer of the north of prodcons.c keeps the invariant.
use mathlib.Core.Path.{subst}
use operating_system_impleme.Prelude.{List, arith, false, refl, ◌+◌, ◌≡◌, ◌≤◌}
use operating_system_impleme.CarQueue.{enqueue}
use operating_system_impleme.Traffic.{
  Producer, Sems, at_empty, at_mutex, empty, flagperson, full, idle, inside, leaving, lower, mutex,
  north, producer, raise, signalling,
}
use operating_system_impleme.Traffic.Mutex.{locked, locked_flag, mutex-down, mutex-up}
use operating_system_impleme.Traffic.Invariant.{IsMutex-eq, locked-bound, locked_flag-bound}
use operating_system_impleme.Construction.{Report, Site}
use operating_system_impleme.Construction.Sides.{
  IsSide, IsSide-at_empty, IsSide-inside, IsSide-moves, IsSide-signalling,
}
use operating_system_impleme.Construction.Scene.{IsLog, IsScene}

module _ {K : Type 0} (v : Sems) (w : Site K) (awake : v.asleep (producer north) ≡ false) where
  abbrev north_at : Producer → Site K
  north_at pc = record w { north_place = pc }

  -- The side of an awake producer.
  north-IsSide :
      (pc : Producer)
      → IsScene v (north_at pc)
      → IsSide north
          (v.value (empty north))
          (v.value (full north))
          w.north_queue
          pc
          w.flag
          false
          (v.asleep flagperson)
  north-IsSide pc h =
      subst
        (λ b.
          IsSide north (v.value (empty north)) (v.value (full north)) w.north_queue pc w.flag b
            (v.asleep flagperson))
        awake h.northern

  pub north-at_empty :
      (k : K)
      → IsScene v (north_at at_empty)
      → IsScene
          (lower (producer north) (empty north) v)
          (record w { kernel = k; north_place = at_mutex })
  north-at_empty k h = record {
    northern =
        rw awake (IsSide-at_empty north _ _ w.north_queue w.flag _ (north-IsSide at_empty h));
    southern = h.southern;
    lock = h.lock;
    counter = h.counter;
    flag_dozes = h.flag_dozes;
    reports = h.reports;
  }

  pub north-at_mutex :
      (k : K)
      → IsScene v (north_at at_mutex)
      → IsScene (lower (producer north) mutex v) (record w { kernel = k; north_place = inside })
  north-at_mutex k h = record {
    northern =
        IsSide-moves north _ _ w.north_queue at_mutex w.flag inside _ _ refl refl
          (north-IsSide at_mutex h);
    southern = h.southern;
    lock =
        let few : locked w.south_place + locked_flag w.flag ≤ 2 =
          omega (arith, locked-bound w.south_place, locked_flag-bound w.flag) in
        IsMutex-eq _ _ _ _ _ (omega arith) (rw awake (omega arith))
          (mutex-down (v.value mutex) _ _ (omega (arith, few)) h.lock);
    counter = h.counter;
    flag_dozes = h.flag_dozes;
    reports = h.reports;
  }

  pub north-leaving :
      (k : K)
      → IsScene v (north_at leaving)
      → IsScene (raise mutex v) (record w { kernel = k; north_place = signalling })
  north-leaving k h = record {
    northern =
        IsSide-moves north _ _ w.north_queue leaving w.flag signalling _ _ refl refl
          (north-IsSide leaving h);
    southern = h.southern;
    lock =
        mutex-up (v.value mutex) _ _
          (IsMutex-eq _ _ _ _ _ (omega arith) (rw awake (omega arith)) h.lock);
    counter = h.counter;
    flag_dozes = h.flag_dozes;
    reports = h.reports;
  }

  pub north-signalling :
      (k : K)
      → IsScene v (north_at signalling)
      → IsScene (raise (full north) v) (record w { kernel = k; north_place = at_empty })
  north-signalling k h = record {
    northern = IsSide-signalling north _ _ w.north_queue w.flag _ _ (north-IsSide signalling h);
    southern = h.southern;
    lock = h.lock;
    counter = h.counter;
    flag_dozes = h.flag_dozes;
    reports = h.reports;
  }

  -- The number is read, reported and enqueued.
  pub north-inside :
      (log : List Report)
      → IsLog log
      → IsScene v (north_at inside)
      → IsScene v (record w {
        north_queue = enqueue w.north_queue (w.total 0);
        north_sleep = false;
        north_place = leaving;
        log = log;
      })
  north-inside log reports h = record {
    northern =
        IsSide-inside north _ _ w.north_queue w.flag _ (w.total 0) _ h.counter.first
          (north-IsSide inside h);
    southern = h.southern;
    lock = h.lock;
    counter = h.counter;
    flag_dozes = h.flag_dozes;
    reports = reports;
  }

  pub north-idle : IsScene v (north_at idle) → IsScene v (north_at at_empty)
  north-idle h = record {
    northern =
        IsSide-moves north _ _ w.north_queue idle w.flag at_empty _ _ refl refl
          (north-IsSide idle h);
    southern = h.southern;
    lock = h.lock;
    counter = h.counter;
    flag_dozes = h.flag_dozes;
    reports = h.reports;
  }
