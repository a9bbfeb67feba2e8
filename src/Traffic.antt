-- ===== src/Traffic.antt =====
-- The simulation of "Semaphore and Synchronization/trafficsim.c": two processes in which cars arrive
-- from the north and from the south, and one for the flag person, on shared semaphores and counters.
pub mod Roads
pub mod Mutex
pub mod Invariant
pub mod Producers
pub mod FlagPerson
pub mod Safety
pub mod Jam
pub mod Kernel
pub mod Sample
mod Tests
use operating_system_impleme.Prelude.{
  Bool, List, [], eqb_ℤ, false, if◌then◌else◌, int_pred, int_succ, is_negative, ltb_ℤ, not, pos,
  true, ℕ, ℤ, ◌%◌, ◌&&◌, ◌+◌, ◌==◌, ◌||◌, ◌∷◌, ◌≡◌,
}

pub data Side : Type 0 where
  north south : Side

abbrev pub opposite : Side → Side
opposite north = south
opposite south = north

-- `n_empty`, `s_empty`, `n_full`, `s_full` and `mutex`
pub data SemName : Type 0 where
  empty : Side → SemName
  full : Side → SemName
  mutex : SemName

pub data TaskName : Type 0 where
  producer : Side → TaskName
  flagperson : TaskName

abbrev pub same_sem : SemName → SemName → Bool
same_sem (empty north) (empty north) = true
same_sem (empty south) (empty south) = true
same_sem (full north) (full north) = true
same_sem (full south) (full south) = true
same_sem mutex mutex = true
same_sem _ _ = false

abbrev pub same_task : TaskName → TaskName → Bool
same_task (producer north) (producer north) = true
same_task (producer south) (producer south) = true
same_task flagperson flagperson = true
same_task _ _ = false

-- The values of the semaphores, which the processes read in shared memory, and who sleeps.
pub record Sems : Type 0 where
  pub value : SemName → ℤ
  pub asleep : TaskName → Bool

abbrev pub lower : TaskName → SemName → Sems → Sems
lower t s k = record {
  value = λ s'. if same_sem s' s then int_pred (k.value s) else k.value s';
  asleep = λ t'.
      if same_task t' t then k.asleep t' || is_negative (int_pred (k.value s)) else k.asleep t';
}

abbrev pub raise : SemName → Sems → Sems
raise s k = record k { value = λ s'. if same_sem s' s then int_succ (k.value s) else k.value s' }

-- What the processes use of the kernel: the two system calls, which `down` and `up` make. As it stands,
-- csc452_up wakes nobody when the queues are NULL, and so they are here.
pub record Semaphores : Type 1 where
  pub K : Type 0
  pub view : K → Sems
  pub down : TaskName → SemName → K → K
  pub up : SemName → K → K
  pub view-down : (t : TaskName) (s : SemName) (k : K) → view (down t s k) ≡ lower t s (view k)
  pub view-up : (s : SemName) (k : K) → view (up s k) ≡ raise s (view k)

-- Where a producer stands: before the test of rand, before down(empty), before down(mutex), before the
-- car, before up(mutex), before up(full).
pub data Producer : Type 0 where
  idle at_empty at_mutex inside leaving signalling : Producer

-- Where the flag person stands: before the test of an inner loop, before down(full), before
-- down(mutex), before taking a car, before it leaves and up(mutex), before up(empty), and behind an
-- inner loop.
pub data Flag : Type 0 where
  testing : Side → Flag
  taking : Side → Flag
  entering : Side → Flag
  removing : Side → Flag
  passing : Side → ℕ → Flag
  freeing : Side → Flag
  resting : Side → Flag

-- What the processes print, without the times.
pub data Event : Type 0 where
  arrived : Side → ℕ → Event
  blew_horn : Side → ℕ → Event
  entered : Side → ℕ → Event
  left : Side → ℕ → Event
  fell_asleep : Event

-- The shared memory of one side, `*n_prod`, `*n_con` and `north_buf`, and its producer.
pub record Road : Type 0 where
  pub prod : ℕ
  pub con : ℕ
  pub buffer : ℕ → ℕ
  pub pc : Producer

pub record World (K : Type 0) : Type 0 where
  pub kernel : K
  pub northern : Road
  pub southern : Road
  pub flag : Flag
  pub con_sleep : Bool
  pub log : List Event

-- Whose turn it is, and what rand says to a producer.
pub data Turn : Type 0 where
  producer_turn : Side → Bool → Turn
  flag_turn : Turn

abbrev pub buff_size : ℕ
buff_size = 10

-- `car = *n_prod; north_buf[*n_prod % BUFF_SIZE] = car; *n_prod = *n_prod + 1;`
unfoldable pub arrive : Road → Road
arrive r = record r {
  buffer = λ i. if i == r.prod % buff_size then r.prod else r.buffer i;
  prod = r.prod + 1;
  pc = leaving;
}

module _ (m : Semaphores) where
  open m use {K, view, down, up}

  abbrev pub value_of : SemName → World K → ℤ
  value_of s w = (view w.kernel).value s

  abbrev pub sleeps : TaskName → World K → Bool
  sleeps t w = (view w.kernel).asleep t

  abbrev pub road : Side → World K → Road
  road north w = w.northern
  road south w = w.southern

  abbrev pub set_road : Side → Road → World K → World K
  set_road north r w = record w { northern = r }
  set_road south r w = record w { southern = r }

  abbrev pub go_to : Side → Producer → World K → World K
  go_to s pc w = set_road s (record (road s w) { pc = pc }) w

  -- One statement of a producer, with what rand says where it is asked.
  unfoldable pub producer_step : Side → Bool → Producer → World K → World K
  producer_step s more idle w = go_to s (if more then at_empty else idle) w
  producer_step s more at_empty w =
      go_to s at_mutex (record w { kernel = down (producer s) (empty s) w.kernel })
  producer_step s more at_mutex w =
      go_to s inside (record w { kernel = down (producer s) mutex w.kernel })
  producer_step s more inside w =
      set_road s (arrive (road s w)) (record w { log = arrived s (road s w).prod ∷ w.log })
  producer_step s more leaving w = go_to s signalling (record w { kernel = up mutex w.kernel })
  producer_step s more signalling w = go_to s idle (record w { kernel = up (full s) w.kernel })

  -- `while (s_full->value < 10 && n_full->value > 0)`
  abbrev pub may_take : Side → World K → Bool
  may_take s w =
      ltb_ℤ (value_of (full (opposite s)) w) (pos 10) && ltb_ℤ (pos 0) (value_of (full s) w)

  -- `n_full->value == 0 && s_full->value == 0 && con_sleep == 0`
  abbrev pub is_quiet : World K → Bool
  is_quiet w =
      eqb_ℤ (value_of (full north) w) (pos 0)
      && eqb_ℤ (value_of (full south) w) (pos 0)
      && not w.con_sleep

  -- `car = *n_con; *n_con = *n_con + 1;` and what is printed.
  abbrev pub take_car : Side → World K → World K
  take_car s w =
      let r = road s w in
      let horn = if w.con_sleep then blew_horn s r.con ∷ w.log else w.log in
      set_road s (record r { con = r.con + 1 })
        (record w { flag = passing s r.con; con_sleep = false; log = entered s r.con ∷ horn })

  -- One statement of the flag person.
  unfoldable pub flag_step : Flag → World K → World K
  flag_step (testing s) w = record w { flag = if may_take s w then taking s else resting s }
  flag_step (taking s) w = record w {
    flag = entering s;
    kernel = down flagperson (full s) w.kernel;
  }
  flag_step (entering s) w = record w { flag = removing s; kernel = down flagperson mutex w.kernel }
  flag_step (removing s) w = take_car s w
  flag_step (passing s car) w = record w {
    flag = freeing s;
    kernel = up mutex w.kernel;
    log = left s car ∷ w.log;
  }
  flag_step (freeing s) w = record w { flag = testing s; kernel = up (empty s) w.kernel }
  flag_step (resting s) w =
      let quiet = is_quiet w in
      record w {
        flag = testing (opposite s);
        con_sleep = if quiet then true else w.con_sleep;
        log = if quiet then fell_asleep ∷ w.log else w.log;
      }

  -- One turn of a process that is not asleep.
  unfoldable pub turn : Turn → World K → World K
  turn (producer_turn s more) w =
      if sleeps (producer s) w then w else producer_step s more (road s w).pc w
  turn flag_turn w = if sleeps flagperson w then w else flag_step w.flag w

  -- An interleaving of the processes.
  unfoldable pub run : List Turn → World K → World K
  run [] w = w
  run (t ∷ ts) w = run ts (turn t w)
