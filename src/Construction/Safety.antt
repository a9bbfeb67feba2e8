-- ===== src/Construction/Safety.antt =====
-- Whole runs of prodcons.c, in any interleaving of the three processes.
use operating_system_impleme.Prelude.{
  Bool, Bool-cases, List, [], ap, arith, eqb_ℤ, false, inl, inr, length, pos, refl, ℤ, ◌&&◌, ◌∷◌,
  ◌≡◌, ◌≤◌,
}
use operating_system_impleme.Traffic.{
  Flag, Producer, Semaphores, Side, TaskName, at_empty, at_mutex, empty, entering, flagperson,
  freeing, full, idle, inside, leaving, mutex, north, passing, producer, removing, resting,
  signalling, south, taking, testing,
}
use operating_system_impleme.Construction.{
  Site, guard_step, may_doze, may_release, move, moves, north_step, queue_of, south_step,
  start_site,
}
use operating_system_impleme.Construction.Scene.{
  AllFine, IsLog-add, IsLog-if, IsScene, awake_holders,
}
use operating_system_impleme.Construction.North.{
  north-at_empty, north-at_mutex, north-idle, north-inside, north-leaving, north-signalling,
}
use operating_system_impleme.Construction.South.{
  south-at_empty, south-at_mutex, south-idle, south-inside, south-leaving, south-signalling,
}
use operating_system_impleme.Construction.Guard.{
  guard-entering, guard-passing, guard-tests, north-freeing, north-removing, north-taking,
  south-freeing, south-removing, south-taking,
}
use operating_system_impleme.CarQueue.{CarQueue, new_queue}
use operating_system_impleme.CarQueue.Fifo.{IsQueue}
use operating_system_impleme.Traffic.Roads.{announced}
use operating_system_impleme.Traffic.Safety.{start_sems}
use operating_system_impleme.Construction.Sides.{IsSide}

and-false : (a b : Bool) → (a && b && false) ≡ false
and-false a b = ground arith

module _ (m : Semaphores) where
  open m use {K, view, down, up}

  abbrev pub IsSite : Site K → Type 0
  IsSite w = IsScene (view w.kernel) w

  north-keeps :
      (pc : Producer) (w : Site K)
      → (view w.kernel).asleep (producer north) ≡ false
      → IsSite (record w { north_place = pc })
      → IsSite (north_step m pc w)
  unfolding north_step
  north-keeps idle w a h = north-idle _ w a h
  north-keeps at_empty w a h =
      rw (m.view-down (producer north) (empty north) w.kernel) (north-at_empty _ w a _ h)
  north-keeps at_mutex w a h =
      rw (m.view-down (producer north) mutex w.kernel) (north-at_mutex _ w a _ h)
  north-keeps inside w a h =
      let one = h.counter.first in
      north-inside _ w a _
        (IsLog-add _ _ one
          (IsLog-if _ _ _ (IsLog-add _ _ one (IsLog-add _ _ tt h.reports)) h.reports))
        h
  north-keeps leaving w a h = rw (m.view-up mutex w.kernel) (north-leaving _ w a _ h)
  north-keeps signalling w a h = rw (m.view-up (full north) w.kernel) (north-signalling _ w a _ h)

  south-keeps :
      (pc : Producer) (w : Site K)
      → (view w.kernel).asleep (producer south) ≡ false
      → IsSite (record w { south_place = pc })
      → IsSite (south_step m pc w)
  unfolding south_step
  south-keeps idle w a h = south-idle _ w a h
  south-keeps at_empty w a h =
      rw (m.view-down (producer south) (empty south) w.kernel) (south-at_empty _ w a _ h)
  south-keeps at_mutex w a h =
      rw (m.view-down (producer south) mutex w.kernel) (south-at_mutex _ w a _ h)
  south-keeps inside w a h =
      let one = h.counter.here in
      south-inside _ w a _
        (IsLog-add _ _ one (IsLog-if _ _ _ (IsLog-add _ _ one h.reports) h.reports)) h
  south-keeps leaving w a h = rw (m.view-up mutex w.kernel) (south-leaving _ w a _ h)
  south-keeps signalling w a h = rw (m.view-up (full south) w.kernel) (south-signalling _ w a _ h)

  guard-keeps :
      (f : Flag) (w : Site K)
      → (view w.kernel).asleep flagperson ≡ false
      → IsSite (record w { flag = f })
      → IsSite (guard_step m f w)
  unfolding guard_step
  guard-keeps (testing north) w a h = elim (Bool-cases (may_release m north w)) [
    | inl b ↦ rw b (
        guard-tests _ w a (testing north) (taking north) _ refl refl (λ t. refl) (λ t. refl)
          h.reports h)
    | inr b ↦ rw b (
        guard-tests _ w a (testing north) (testing south) _ refl refl (λ t. refl) (λ t. refl)
          h.reports h)
  ]
  guard-keeps (testing south) w a h = elim (Bool-cases (may_release m south w)) [
    | inl b ↦ rw b (
        guard-tests _ w a (testing south) (taking south) _ refl refl (λ t. refl) (λ t. refl)
          h.reports h)
    | inr b ↦ rw b (
        guard-tests _ w a (testing south) (resting north) _ refl refl (λ t. refl) (λ t. refl)
          h.reports h)
  ]
  guard-keeps (resting s) w a h =
      let quiet : may_doze m w ≡ false =
        rw h.flag_dozes
          (and-false (eqb_ℤ w.north_queue.size (pos 0)) (eqb_ℤ w.south_queue.size (pos 0))) in
      rw quiet (
        guard-tests _ w a (resting s) (testing north) _ refl refl (λ t. refl) (λ t. refl) h.reports
          h)
  guard-keeps (taking north) w a h =
      rw (m.view-down flagperson (full north) w.kernel) (north-taking _ w a _ h)
  guard-keeps (taking south) w a h =
      rw (m.view-down flagperson (full south) w.kernel) (south-taking _ w a _ h)
  guard-keeps (entering s) w a h =
      rw (m.view-down flagperson mutex w.kernel) (guard-entering _ w a s _ h)
  guard-keeps (removing north) w a h = north-removing _ w a _ (λ car. IsLog-add _ _ car h.reports) h
  guard-keeps (removing south) w a h = south-removing _ w a _ (λ car. IsLog-add _ _ car h.reports) h
  guard-keeps (passing s car) w a h = rw (m.view-up mutex w.kernel) (guard-passing _ w a s car _ h)
  guard-keeps (freeing north) w a h =
      rw (m.view-up (empty north) w.kernel) (north-freeing _ w a _ h)
  guard-keeps (freeing south) w a h =
      rw (m.view-up (empty south) w.kernel) (south-freeing _ w a _ h)

  move-IsSite : (t : TaskName) (w : Site K) → IsSite w → IsSite (move m t w)
  unfolding move
  move-IsSite (producer north) w h = elim (Bool-cases ((view w.kernel).asleep (producer north))) [
    | inl b ↦ rw b h
    | inr b ↦ rw b (north-keeps w.north_place w b h)
  ]
  move-IsSite (producer south) w h = elim (Bool-cases ((view w.kernel).asleep (producer south))) [
    | inl b ↦ rw b h
    | inr b ↦ rw b (south-keeps w.south_place w b h)
  ]
  move-IsSite flagperson w h = elim (Bool-cases ((view w.kernel).asleep flagperson)) [
    | inl b ↦ rw b h
    | inr b ↦ rw b (guard-keeps w.flag w b h)
  ]

  moves-IsSite : (ts : List TaskName) (w : Site K) → IsSite w → IsSite (moves m ts w)
  unfolding moves
  moves-IsSite [] w h = h
  moves-IsSite (t ∷ ts) w h = moves-IsSite ts (move m t w) (move-IsSite t w h)

  start-IsSide :
      (s : Side) → IsSide s (pos 10) (pos 0) new_queue at_empty (resting north) false false
  start-IsSide s = record {
    cars = [];
    queued = (refl, refl);
    ones = tt;
    room = refl;
    count = refl;
    empty_low = inl refl;
    full_low = inl refl;
  }

  start-IsSite : (k : K) → view k ≡ start_sems → IsSite (start_site k)
  start-IsSite k e = rw e (record {
    northern = start-IsSide north;
    southern = start-IsSide south;
    lock = record { places = refl; alone = omega arith };
    counter = record { first = refl; here = refl; behind = λ i l. ground arith };
    flag_dozes = refl;
    reports = record { fine = refl; printed = omega arith };
  })

-- In every run of prodcons.c from its start, whatever the interleaving, every car that comes, blows
-- its horn or leaves is reported with the number 1, never with the -1 of an empty queue, and the flag
-- person is not reported asleep after the first line.
pub every_car_is_one :
    (m : Semaphores) (k : m.K) (ts : List TaskName)
    → m.view k ≡ start_sems
    → AllFine (moves m ts (start_site k)).log
every_car_is_one m k ts e = (moves-IsSite m ts (start_site k) (start-IsSite m k e)).reports.fine

-- In every run of prodcons.c from its start, at most one of the three processes is awake between its
-- down(mutex) and its up(mutex).
pub one_inside :
    (m : Semaphores) (k : m.K) (ts : List TaskName)
    → m.view k ≡ start_sems
    → let w = moves m ts (start_site k) in
      awake_holders (m.view w.kernel) w.north_place w.south_place w.flag ≤ 1
one_inside m k ts e =
    let h = moves-IsSite m ts (start_site k) (start-IsSite m k e) in omega (arith, h.lock.alone)

-- A queue that holds a list of at most 10 cars.
abbrev pub HoldsTen : CarQueue → Type 0
HoldsTen q = (cars : List ℤ) × IsQueue q cars × (length cars ≤ 10)

IsSide-HoldsTen :
    (s : Side) (ve vf : ℤ) (q : CarQueue) (pc : Producer) (f : Flag) (dozes waits : Bool)
    → IsSide s ve vf q pc f dozes waits
    → HoldsTen q
IsSide-HoldsTen s ve vf q pc f dozes waits h = (
  h.cars,
  h.queued,
  elim h.empty_low [
    | inl e ↦ omega (arith, h.room, e)
    | inr (e, e', e'') ↦
        let one : announced pc ≡ 1 = ap announced e' in omega (arith, h.room, e, one)
  ],
)

-- In every run of prodcons.c from its start, each of the two circular queues of 30 places is in order
-- and holds at most 10 cars: enqueue never finds a full queue and loses no car.
pub queues_hold_ten :
    (m : Semaphores) (k : m.K) (ts : List TaskName) (s : Side)
    → m.view k ≡ start_sems
    → HoldsTen (queue_of m s (moves m ts (start_site k)))
queues_hold_ten m k ts north e =
    IsSide-HoldsTen _ _ _ _ _ _ _ _ (moves-IsSite m ts (start_site k) (start-IsSite m k e)).northern
queues_hold_ten m k ts south e =
    IsSide-HoldsTen _ _ _ _ _ _ _ _ (moves-IsSite m ts (start_site k) (start-IsSite m k e)).southern
