-- ===== src/Construction.antt =====
-- The main program of "Semaphore and Synchronization/prodcons.c": two processes that put cars into the
-- circular queues, and the flag person, who takes them out, on shared semaphores. The semaphores and
-- the places of the processes are named as in Traffic.
pub mod Sides
pub mod Memory
pub mod Scene
pub mod North
pub mod South
pub mod Guard
pub mod Safety
mod Tests
use operating_system_impleme.Prelude.{
  Bool, List, [], eqb_ℤ, false, if◌then◌else◌, int_succ, ltb_ℤ, not, pos, true, ℕ, ℤ, ◌&&◌, ◌+◌,
  ◌==◌, ◌∷◌,
}
use operating_system_impleme.CarQueue.{CarQueue, dequeue, enqueue, new_queue, put_car}
use operating_system_impleme.Traffic.{
  Flag, Producer, Semaphores, Side, TaskName, at_empty, at_mutex, empty, entering, flagperson,
  freeing, full, idle, inside, leaving, mutex, north, opposite, passing, producer, removing,
  resting, signalling, south, taking, testing,
}

-- What the processes print, without the times.
pub data Report : Type 0 where
  woke : Report
  honked : Side → ℤ → Report
  came : Side → ℤ → Report
  crossed : Side → ℤ → Report
  dozed : Report

-- The shared memory of the processes, and what each has of its own after the forks: the pointer
-- `total_car` of the southern producer, as an index into the ints that are mapped, and `is_sleep`.
-- The ints behind `*total_car` are zero; the model has no end of the page.
pub record Site (K : Type 0) : Type 0 where
  pub kernel : K
  pub north_queue : CarQueue
  pub south_queue : CarQueue
  pub north_place : Producer
  pub south_place : Producer
  pub flag : Flag
  pub total : ℕ → ℤ
  pub total_car : ℕ
  pub north_sleep : Bool
  pub south_sleep : Bool
  pub flag_sleep : Bool
  pub log : List Report

-- `srand`, the mmaps and the settings before the first fork.
abbrev pub start_site : {K : Type 0} → K → Site K
start_site k = record {
  kernel = k;
  north_queue = new_queue;
  south_queue = new_queue;
  north_place = at_empty;
  south_place = at_empty;
  flag = resting north;
  total = λ i. if i == 0 then pos 1 else pos 0;
  total_car = 0;
  north_sleep = true;
  south_sleep = true;
  flag_sleep = true;
  log = dozed ∷ [];
}

module _ (m : Semaphores) where
  open m use {K, view, down, up}

  -- One statement of the producer of the north. rand and sleep only delay it.
  unfoldable pub north_step : Producer → Site K → Site K
  north_step idle w = record w { north_place = at_empty }
  north_step at_empty w = record w {
    kernel = down (producer north) (empty north) w.kernel;
    north_place = at_mutex;
  }
  north_step at_mutex w = record w {
    kernel = down (producer north) mutex w.kernel;
    north_place = inside;
  }
  north_step inside w =
      let car = w.total 0 in
      record w {
        north_queue = enqueue w.north_queue car;
        north_sleep = false;
        north_place = leaving;
        log = came north car ∷ (if w.north_sleep then honked north car ∷ woke ∷ w.log else w.log);
      }
  north_step leaving w = record w { kernel = up mutex w.kernel; north_place = signalling }
  north_step signalling w = record w { kernel = up (full north) w.kernel; north_place = at_empty }

  -- One statement of the producer of the south: `*total_car++` moves the pointer.
  unfoldable pub south_step : Producer → Site K → Site K
  south_step idle w = record w { south_place = at_empty }
  south_step at_empty w = record w {
    kernel = down (producer south) (empty south) w.kernel;
    south_place = at_mutex;
  }
  south_step at_mutex w = record w {
    kernel = down (producer south) mutex w.kernel;
    south_place = inside;
  }
  south_step inside w =
      let car = w.total w.total_car in
      let next = w.total_car + 1 in
      record w {
        south_queue = enqueue w.south_queue car;
        total = put_car w.total next (int_succ (w.total next));
        total_car = next;
        south_sleep = false;
        south_place = leaving;
        log = came south car ∷ (if w.south_sleep then honked south car ∷ w.log else w.log);
      }
  south_step leaving w = record w { kernel = up mutex w.kernel; south_place = signalling }
  south_step signalling w = record w { kernel = up (full south) w.kernel; south_place = at_empty }

  abbrev pub queue_of : Side → Site K → CarQueue
  queue_of north w = w.north_queue
  queue_of south w = w.south_queue

  -- `while (north_queue->size > 0 && south_queue->size < 10)`
  abbrev pub may_release : Side → Site K → Bool
  may_release s w =
      ltb_ℤ (pos 0) (queue_of s w).size && ltb_ℤ (queue_of (opposite s) w).size (pos 10)

  -- Where the flag person goes when an inner loop ends.
  abbrev pub next_loop : Side → Flag
  next_loop north = testing south
  next_loop south = resting north

  abbrev pub release : Side → Site K → Site K
  release north w =
      let (car, q) = dequeue w.north_queue in
      record w { north_queue = q; flag = passing north 0; log = crossed north car ∷ w.log }
  release south w =
      let (car, q) = dequeue w.south_queue in
      record w { south_queue = q; flag = passing south 0; log = crossed south car ∷ w.log }

  -- `north_queue->size == 0 && south_queue->size == 0` and `is_sleep == 0`
  abbrev pub may_doze : Site K → Bool
  may_doze w =
      eqb_ℤ w.north_queue.size (pos 0) && eqb_ℤ w.south_queue.size (pos 0) && not w.flag_sleep

  -- One statement of the flag person.
  unfoldable pub guard_step : Flag → Site K → Site K
  guard_step (resting s) w =
      let doze = may_doze w in
      record w {
        flag = testing north;
        flag_sleep = if doze then true else w.flag_sleep;
        log = if doze then dozed ∷ w.log else w.log;
      }
  guard_step (testing s) w = record w { flag = if may_release s w then taking s else next_loop s }
  guard_step (taking s) w = record w {
    kernel = down flagperson (full s) w.kernel;
    flag = entering s;
  }
  guard_step (entering s) w = record w {
    kernel = down flagperson mutex w.kernel;
    flag = removing s;
  }
  guard_step (removing s) w = release s w
  guard_step (passing s car) w = record w { kernel = up mutex w.kernel; flag = freeing s }
  guard_step (freeing s) w = record w { kernel = up (empty s) w.kernel; flag = testing s }

  -- One turn of a process that is not asleep.
  unfoldable pub move : TaskName → Site K → Site K
  move (producer north) w =
      if (view w.kernel).asleep (producer north) then w else north_step w.north_place w
  move (producer south) w =
      if (view w.kernel).asleep (producer south) then w else south_step w.south_place w
  move flagperson w = if (view w.kernel).asleep flagperson then w else guard_step w.flag w

  -- An interleaving of the processes.
  unfoldable pub moves : List TaskName → Site K → Site K
  moves [] w = w
  moves (t ∷ ts) w = moves ts (move t w)
