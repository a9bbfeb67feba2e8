-- ===== src/Construction/Guard.antt =====
-- Each statement of the flag person of prodcons.c keeps the invariant.
use mathlib.Core.Path.{subst}
use operating_system_impleme.Prelude.{List, arith, false, pos, refl, ℕ, ◌+◌, ◌≡◌, ◌≤◌}
use operating_system_impleme.CarQueue.{dequeue}
use operating_system_impleme.Traffic.{
  Flag, Sems, Side, empty, entering, flagperson, freeing, full, lower, mutex, north, passing,
  producer, raise, removing, south, taking, testing,
}
use operating_system_impleme.Traffic.Mutex.{locked, locked_flag, mutex-down, mutex-up}
use operating_system_impleme.Traffic.Invariant.{IsMutex-eq, locked-bound}
use operating_system_impleme.Construction.{Report, Site}
use operating_system_impleme.Traffic.Roads.{claimed, unfreed}
use operating_system_impleme.Construction.Sides.{
  IsSide, IsSide-freeing, IsSide-guards, IsSide-removing, IsSide-taking,
}
use operating_system_impleme.Construction.Scene.{IsLog, IsScene}

module _ {K : Type 0} (v : Sems) (w : Site K) (awake : v.asleep flagperson ≡ false) where
  abbrev flag_at : Flag → Site K
  flag_at f = record w { flag = f }

  north-IsSide :
      (f : Flag)
      → IsScene v (flag_at f)
      → IsSide north
          (v.value (empty north))
          (v.value (full north))
          w.north_queue
          w.north_place
          f
          (v.asleep (producer north))
          false
  north-IsSide f h =
      subst
        (λ b.
          IsSide north (v.value (empty north)) (v.value (full north)) w.north_queue w.north_place f
            (v.asleep (producer north)) b)
        awake h.northern

  south-IsSide :
      (f : Flag)
      → IsScene v (flag_at f)
      → IsSide south
          (v.value (empty south))
          (v.value (full south))
          w.south_queue
          w.south_place
          f
          (v.asleep (producer south))
          false
  south-IsSide f h =
      subst
        (λ b.
          IsSide south (v.value (empty south)) (v.value (full south)) w.south_queue w.south_place f
            (v.asleep (producer south)) b)
        awake h.southern

  -- Between places where nothing is claimed and nothing is locked.
  pub guard-tests :
      (f f' : Flag) (log : List Report)
      → locked_flag f ≡ 0
      → locked_flag f' ≡ 0
      → ((t : Side) → claimed t f' ≡ claimed t f)
      → ((t : Side) → unfreed t f' ≡ unfreed t f)
      → IsLog log
      → IsScene v (flag_at f)
      → IsScene v (record w { flag = f'; log = log })
  guard-tests f f' log l l' c u reports h = record {
    northern =
        IsSide-guards north _ _ w.north_queue w.north_place f f' _ _ (c north) (u north)
          (north-IsSide f h);
    southern =
        IsSide-guards south _ _ w.south_queue w.south_place f f' _ _ (c south) (u south)
          (south-IsSide f h);
    lock = IsMutex-eq _ _ _ _ _ (omega (arith, l, l')) (rw (l, l') refl) h.lock;
    counter = h.counter;
    flag_dozes = h.flag_dozes;
    reports = reports;
  }

  pub guard-entering :
      (s : Side) (k : K)
      → IsScene v (flag_at (entering s))
      → IsScene (lower flagperson mutex v) (record w { kernel = k; flag = removing s })
  guard-entering s k h = record {
    northern =
        IsSide-guards north _ _ w.north_queue w.north_place (entering s) (removing s) _ _ refl refl
          (north-IsSide (entering s) h);
    southern =
        IsSide-guards south _ _ w.south_queue w.south_place (entering s) (removing s) _ _ refl refl
          (south-IsSide (entering s) h);
    lock =
        let few : locked w.north_place + locked w.south_place ≤ 2 =
          omega (arith, locked-bound w.north_place, locked-bound w.south_place) in
        IsMutex-eq _ _ _ _ _ (omega arith) (rw awake (omega arith))
          (mutex-down (v.value mutex) _ _ (omega (arith, few)) h.lock);
    counter = h.counter;
    flag_dozes = h.flag_dozes;
    reports = h.reports;
  }

  pub guard-passing :
      (s : Side) (car : ℕ) (k : K)
      → IsScene v (flag_at (passing s car))
      → IsScene (raise mutex v) (record w { kernel = k; flag = freeing s })
  guard-passing s car k h = record {
    northern =
        IsSide-guards north _ _ w.north_queue w.north_place (passing s car) (freeing s) _ _ refl
          refl (north-IsSide (passing s car) h);
    southern =
        IsSide-guards south _ _ w.south_queue w.south_place (passing s car) (freeing s) _ _ refl
          refl (south-IsSide (passing s car) h);
    lock =
        mutex-up (v.value mutex) _ _
          (IsMutex-eq _ _ _ _ _ (omega arith) (rw awake (omega arith)) h.lock);
    counter = h.counter;
    flag_dozes = h.flag_dozes;
    reports = h.reports;
  }

  pub north-taking :
      (k : K)
      → IsScene v (flag_at (taking north))
      → IsScene (lower flagperson (full north) v) (record w { kernel = k; flag = entering north })
  north-taking k h = record {
    northern =
        rw awake
          (IsSide-taking north _ _ w.north_queue w.north_place _ (north-IsSide (taking north) h));
    southern =
        IsSide-guards south _ _ w.south_queue w.south_place (taking north) (entering north) _ _ refl
          refl (south-IsSide (taking north) h);
    lock = h.lock;
    counter = h.counter;
    flag_dozes = h.flag_dozes;
    reports = h.reports;
  }

  pub north-removing :
      (log : List Report)
      → ((dequeue w.north_queue).0 ≡ pos 1 → IsLog log)
      → IsScene v (flag_at (removing north))
      → IsScene v
          (record w { north_queue = (dequeue w.north_queue).1; flag = passing north 0; log = log })
  north-removing log reports h =
      let (car, side) =
        IsSide-removing north _ _ w.north_queue w.north_place _ 0 (v.asleep flagperson)
          (north-IsSide (removing north) h) in
      record {
        northern = side;
        southern =
            IsSide-guards south _ _ w.south_queue w.south_place (removing north) (passing north 0) _
              _ refl refl (south-IsSide (removing north) h);
        lock = h.lock;
        counter = h.counter;
        flag_dozes = h.flag_dozes;
        reports = reports car;
      }

  pub north-freeing :
      (k : K)
      → IsScene v (flag_at (freeing north))
      → IsScene (raise (empty north) v) (record w { kernel = k; flag = testing north })
  north-freeing k h = record {
    northern =
        IsSide-freeing north _ _ w.north_queue w.north_place _ _ (north-IsSide (freeing north) h);
    southern =
        IsSide-guards south _ _ w.south_queue w.south_place (freeing north) (testing north) _ _ refl
          refl (south-IsSide (freeing north) h);
    lock = h.lock;
    counter = h.counter;
    flag_dozes = h.flag_dozes;
    reports = h.reports;
  }

  pub south-taking :
      (k : K)
      → IsScene v (flag_at (taking south))
      → IsScene (lower flagperson (full south) v) (record w { kernel = k; flag = entering south })
  south-taking k h = record {
    southern =
        rw awake
          (IsSide-taking south _ _ w.south_queue w.south_place _ (south-IsSide (taking south) h));
    northern =
        IsSide-guards north _ _ w.north_queue w.north_place (taking south) (entering south) _ _ refl
          refl (north-IsSide (taking south) h);
    lock = h.lock;
    counter = h.counter;
    flag_dozes = h.flag_dozes;
    reports = h.reports;
  }

  pub south-removing :
      (log : List Report)
      → ((dequeue w.south_queue).0 ≡ pos 1 → IsLog log)
      → IsScene v (flag_at (removing south))
      → IsScene v
          (record w { south_queue = (dequeue w.south_queue).1; flag = passing south 0; log = log })
  south-removing log reports h =
      let (car, side) =
        IsSide-removing south _ _ w.south_queue w.south_place _ 0 (v.asleep flagperson)
          (south-IsSide (removing south) h) in
      record {
        southern = side;
        northern =
            IsSide-guards north _ _ w.north_queue w.north_place (removing south) (passing south 0) _
              _ refl refl (north-IsSide (removing south) h);
        lock = h.lock;
        counter = h.counter;
        flag_dozes = h.flag_dozes;
        reports = reports car;
      }

  pub south-freeing :
      (k : K)
      → IsScene v (flag_at (freeing south))
      → IsScene (raise (empty south) v) (record w { kernel = k; flag = testing south })
  south-freeing k h = record {
    southern =
        IsSide-freeing south _ _ w.south_queue w.south_place _ _ (south-IsSide (freeing south) h);
    northern =
        IsSide-guards north _ _ w.north_queue w.north_place (freeing south) (testing south) _ _ refl
          refl (north-IsSide (freeing south) h);
    lock = h.lock;
    counter = h.counter;
    flag_dozes = h.flag_dozes;
    reports = h.reports;
  }
