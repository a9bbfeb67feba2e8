-- ===== src/Construction/South.antt =====
-- Each statement of the producer of the south of prodcons.c keeps the invariant.
use mathlib.Core.Path.{subst}
use operating_system_impleme.Prelude.{List, arith, false, int_succ, refl, ◌+◌, ◌≡◌, ◌≤◌}
use operating_system_impleme.CarQueue.{enqueue, put_car}
use operating_system_impleme.Traffic.{
  Producer, Sems, at_empty, at_mutex, empty, flagperson, full, idle, inside, leaving, lower, mutex,
  producer, raise, signalling, south,
}
use operating_system_impleme.Traffic.Mutex.{locked, locked_flag, mutex-down, mutex-up}
use operating_system_impleme.Traffic.Invariant.{IsMutex-eq, locked-bound, locked_flag-bound}
use operating_system_impleme.Construction.{Report, Site}
use operating_system_impleme.Construction.Sides.{
  IsSide, IsSide-at_empty, IsSide-inside, IsSide-moves, IsSide-signalling,
}
use operating_system_impleme.Construction.Memory.{IsCounter-moves}
use operating_system_impleme.Construction.Scene.{IsLog, IsScene}

module _ {K : Type 0} (v : Sems) (w : Site K) (awake : v.asleep (producer south) ≡ false) where
  abbrev south_at : Producer → Site K
  south_at pc = record w { south_place = pc }

  -- The side of an awake producer.
  south-IsSide :
      (pc : Producer)
      → IsScene v (south_at pc)
      → IsSide south
          (v.value (empty south))
          (v.value (full south))
          w.south_queue
          pc
          w.flag
          false
          (v.asleep flagperson)
  south-IsSide pc h =
      subst
        (λ b.
          IsSide south (v.value (empty south)) (v.value (full south)) w.south_queue pc w.flag b
            (v.asleep flagperson))
        awake h.southern

  pub south-at_empty :
      (k : K)
      → IsScene v (south_at at_empty)
      → IsScene
          (lower (producer south) (empty south) v)
          (record w { kernel = k; south_place = at_mutex })
  south-at_empty k h = record {
    southern =
        rw awake (IsSide-at_empty south _ _ w.south_queue w.flag _ (south-IsSide at_empty h));
    northern = h.northern;
    lock = h.lock;
    counter = h.counter;
    flag_dozes = h.flag_dozes;
    reports = h.reports;
  }

  pub south-at_mutex :
      (k : K)
      → IsScene v (south_at at_mutex)
      → IsScene (lower (producer south) mutex v) (record w { kernel = k; south_place = inside })
  south-at_mutex k h = record {
    southern =
        IsSide-moves south _ _ w.south_queue at_mutex w.flag inside _ _ refl refl
          (south-IsSide at_mutex h);
    northern = h.northern;
    lock =
        let few : locked w.north_place + locked_flag w.flag ≤ 2 =
          omega (arith, locked-bound w.north_place, locked_flag-bound w.flag) in
        IsMutex-eq _ _ _ _ _ (omega arith) (rw awake (omega arith))
          (mutex-down (v.value mutex) _ _ (omega (arith, few)) h.lock);
    counter = h.counter;
    flag_dozes = h.flag_dozes;
    reports = h.reports;
  }

  pub south-leaving :
      (k : K)
      → IsScene v (south_at leaving)
      → IsScene (raise mutex v) (record w { kernel = k; south_place = signalling })
  south-leaving k h = record {
    southern =
        IsSide-moves south _ _ w.south_queue leaving w.flag signalling _ _ refl refl
          (south-IsSide leaving h);
    northern = h.northern;
    lock =
        mutex-up (v.value mutex) _ _
          (IsMutex-eq _ _ _ _ _ (omega arith) (rw awake (omega arith)) h.lock);
    counter = h.counter;
    flag_dozes = h.flag_dozes;
    reports = h.reports;
  }

  pub south-signalling :
      (k : K)
      → IsScene v (south_at signalling)
      → IsScene (raise (full south) v) (record w { kernel = k; south_place = at_empty })
  south-signalling k h = record {
    southern = IsSide-signalling south _ _ w.south_queue w.flag _ _ (south-IsSide signalling h);
    northern = h.northern;
    lock = h.lock;
    counter = h.counter;
    flag_dozes = h.flag_dozes;
    reports = h.reports;
  }

  -- The number is read, reported and enqueued, and the pointer moves.
  pub south-inside :
      (log : List Report)
      → IsLog log
      → IsScene v (south_at inside)
      → let next = w.total_car + 1 in
        IsScene v (record w {
          south_queue = enqueue w.south_queue (w.total w.total_car);
          total = put_car w.total next (int_succ (w.total next));
          total_car = next;
          south_sleep = false;
          south_place = leaving;
          log = log;
        })
  south-inside log reports h = record {
    northern = h.northern;
    southern =
        IsSide-inside south _ _ w.south_queue w.flag _ (w.total w.total_car) _ h.counter.here
          (south-IsSide inside h);
    lock = h.lock;
    counter = IsCounter-moves w.total w.total_car h.counter;
    flag_dozes = h.flag_dozes;
    reports = reports;
  }

  pub south-idle : IsScene v (south_at idle) → IsScene v (south_at at_empty)
  south-idle h = record {
    northern = h.northern;
    southern =
        IsSide-moves south _ _ w.south_queue idle w.flag at_empty _ _ refl refl
          (south-IsSide idle h);
    lock = h.lock;
    counter = h.counter;
    flag_dozes = h.flag_dozes;
    reports = h.reports;
  }
