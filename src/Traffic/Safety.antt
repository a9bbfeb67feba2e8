-- ===== src/Traffic/Safety.antt =====
-- Whole runs of the simulation in trafficsim.c, in any interleaving of the three processes.
use mathlib.Core.Path.{subst}
use operating_system_impleme.Prelude.{
  Bool, Bool-cases, List, [], ap, arith, false, if◌then◌else◌, inl, inr, pos, pos_part, refl, true,
  ℕ, ℤ, ◌%◌, ◌+◌, ◌<◌, ◌∷◌, ◌≡◌, ◌≤◌,
}
use operating_system_impleme.Traffic.{
  Flag, Producer, Road, SemName, Semaphores, Sems, Side, Turn, World, arrive, at_empty, at_mutex,
  buff_size, empty, entering, flag_step, flag_turn, flagperson, freeing, full, idle, inside,
  leaving, may_take, mutex, north, opposite, passing, producer, producer_step, producer_turn,
  removing, resting, road, run, signalling, sleeps, south, taking, testing, turn,
}
use operating_system_impleme.Traffic.Roads.{IsRoad, at, road-bounds}
use operating_system_impleme.Traffic.Invariant.{IsTraffic, total_awake}
use operating_system_impleme.Traffic.Producers.{
  north-at_empty, north-at_mutex, north-idle, north-inside, north-leaving, north-signalling,
  south-at_empty, south-at_mutex, south-idle, south-inside, south-leaving, south-signalling,
}
use operating_system_impleme.Traffic.FlagPerson.{
  flag-tests, north-entering, north-freeing, north-passing, north-removing, north-taking,
  south-entering, south-freeing, south-passing, south-removing, south-taking,
}

abbrev pub empty_road : Road
empty_road = record { prod = 0; con = 0; buffer = λ i. 0; pc = idle }

-- The semaphores as `main` sets them before the first fork.
abbrev pub start_value : SemName → ℤ
start_value (empty s) = pos buff_size
start_value (full s) = pos 0
start_value mutex = pos 1

abbrev pub start_sems : Sems
start_sems = record { value = start_value; asleep = λ t. false }

-- The shared memory and the processes behind the three forks; the flag person starts asleep.
abbrev pub start : {K : Type 0} → K → World K
start k = record {
  kernel = k;
  northern = empty_road;
  southern = empty_road;
  flag = testing north;
  con_sleep = true;
  log = [];
}

abbrev taken_side : Flag → Side
taken_side (taking s) = s
taken_side _ = north

taking_ready :
    (s : Side) (v : Sems)
    → 0 < pos_part (v.value (full s))
    → (t : Side) → taking s ≡ taking t
    → 0 < pos_part (v.value (full t))
taking_ready s v h t q = subst (λ x. 0 < pos_part (v.value (full x))) (ap taken_side q) h

empty-IsRoad : (s : Side) → IsRoad s (pos 10) (pos 0) empty_road (testing north) false
empty-IsRoad s = record {
  places = refl;
  cars = refl;
  full_low = refl;
  empty_low = inl refl;
  ready = λ q. cc;
  slots = λ i l u. absurd (omega (arith, u));
}

module _ (m : Semaphores) where
  open m use {K, view, down, up}

  abbrev pub IsWorld : World K → Type 0
  IsWorld w = IsTraffic (view w.kernel) w.northern w.southern w.flag

  abbrev pub if_more : Bool → Producer
  if_more more = if more then at_empty else idle

  north-keeps :
      (more : Bool) (pc : Producer) (w : World K)
      → sleeps m (producer north) w ≡ false
      → IsTraffic (view w.kernel) (at pc w.northern) w.southern w.flag
      → IsWorld (producer_step m north more pc w)
  unfolding producer_step arrive
  north-keeps true idle w a h = north-idle _ w.northern _ _ a at_empty refl refl refl h
  north-keeps false idle w a h = h
  north-keeps more at_empty w a h =
      rw (m.view-down (producer north) (empty north) w.kernel) (north-at_empty _ w.northern _ _ a h)
  north-keeps more at_mutex w a h =
      rw (m.view-down (producer north) mutex w.kernel) (north-at_mutex _ w.northern _ _ a h)
  north-keeps more inside w a h = north-inside _ w.northern _ _ a h
  north-keeps more leaving w a h =
      rw (m.view-up mutex w.kernel) (north-leaving _ w.northern _ _ a h)
  north-keeps more signalling w a h =
      rw (m.view-up (full north) w.kernel) (north-signalling _ w.northern _ _ a h)

  south-keeps :
      (more : Bool) (pc : Producer) (w : World K)
      → sleeps m (producer south) w ≡ false
      → IsTraffic (view w.kernel) w.northern (at pc w.southern) w.flag
      → IsWorld (producer_step m south more pc w)
  unfolding producer_step arrive
  south-keeps true idle w a h = south-idle _ w.southern _ _ a at_empty refl refl refl h
  south-keeps false idle w a h = h
  south-keeps more at_empty w a h =
      rw (m.view-down (producer south) (empty south) w.kernel) (south-at_empty _ w.southern _ _ a h)
  south-keeps more at_mutex w a h =
      rw (m.view-down (producer south) mutex w.kernel) (south-at_mutex _ w.southern _ _ a h)
  south-keeps more inside w a h = south-inside _ w.southern _ _ a h
  south-keeps more leaving w a h =
      rw (m.view-up mutex w.kernel) (south-leaving _ w.southern _ _ a h)
  south-keeps more signalling w a h =
      rw (m.view-up (full south) w.kernel) (south-signalling _ w.southern _ _ a h)

  flag-keeps :
      (f : Flag) (w : World K)
      → sleeps m flagperson w ≡ false
      → IsTraffic (view w.kernel) w.northern w.southern f
      → IsWorld (flag_step m f w)
  unfolding flag_step
  flag-keeps (testing s) w a h = elim (Bool-cases (may_take m s w)) [
    | inl b ↦ rw b (
        flag-tests _ _ _ (testing s) (taking s) refl refl (λ t. refl) (λ t. refl)
          (taking_ready s (view w.kernel) (ground arith)) a h)
    | inr b ↦
        rw b (
          flag-tests _ _ _ (testing s) (resting s) refl refl (λ t. refl) (λ t. refl) (λ t q. cc) a
            h)
  ]
  flag-keeps (taking north) w a h =
      rw (m.view-down flagperson (full north) w.kernel) (north-taking _ _ _ a h)
  flag-keeps (taking south) w a h =
      rw (m.view-down flagperson (full south) w.kernel) (south-taking _ _ _ a h)
  flag-keeps (entering north) w a h =
      rw (m.view-down flagperson mutex w.kernel) (north-entering _ _ _ a h)
  flag-keeps (entering south) w a h =
      rw (m.view-down flagperson mutex w.kernel) (south-entering _ _ _ a h)
  flag-keeps (removing north) w a h = north-removing _ _ _ a _ h
  flag-keeps (removing south) w a h = south-removing _ _ _ a _ h
  flag-keeps (passing north car) w a h = rw (m.view-up mutex w.kernel) (north-passing _ _ _ a car h)
  flag-keeps (passing south car) w a h = rw (m.view-up mutex w.kernel) (south-passing _ _ _ a car h)
  flag-keeps (freeing north) w a h = rw (m.view-up (empty north) w.kernel) (north-freeing _ _ _ a h)
  flag-keeps (freeing south) w a h = rw (m.view-up (empty south) w.kernel) (south-freeing _ _ _ a h)
  flag-keeps (resting s) w a h =
      flag-tests _ _ _ (resting s) (testing (opposite s)) refl refl (λ t. refl) (λ t. refl)
        (λ t q. cc) a h

  turn-IsWorld : (t : Turn) (w : World K) → IsWorld w → IsWorld (turn m t w)
  unfolding turn
  turn-IsWorld (producer_turn north more) w h = elim (Bool-cases (sleeps m (producer north) w)) [
    | inl b ↦ rw b h
    | inr b ↦ rw b (north-keeps more w.northern.pc w b h)
  ]
  turn-IsWorld (producer_turn south more) w h = elim (Bool-cases (sleeps m (producer south) w)) [
    | inl b ↦ rw b h
    | inr b ↦ rw b (south-keeps more w.southern.pc w b h)
  ]
  turn-IsWorld flag_turn w h = elim (Bool-cases (sleeps m flagperson w)) [
    | inl b ↦ rw b h
    | inr b ↦ rw b (flag-keeps w.flag w b h)
  ]

  pub run-IsWorld : (ts : List Turn) (w : World K) → IsWorld w → IsWorld (run m ts w)
  unfolding run
  run-IsWorld [] w h = h
  run-IsWorld (t ∷ ts) w h = run-IsWorld ts (turn m t w) (turn-IsWorld t w h)

  start-IsWorld : (k : K) → view k ≡ start_sems → IsWorld (start k)
  start-IsWorld k e = rw e (record {
    northern = empty-IsRoad north;
    southern = empty-IsRoad south;
    lock = record { places = refl; alone = omega arith };
    waits = λ a. cc;
  })

-- In every run from the start, whatever the interleaving and whatever rand says, at most one of the
-- three processes is awake between its down(mutex) and its up(mutex).
pub mutual_exclusion :
    (m : Semaphores) (k : m.K) (ts : List Turn)
    → m.view k ≡ start_sems
    → let w = run m ts (start k) in total_awake (m.view w.kernel) w.northern w.southern w.flag ≤ 1
mutual_exclusion m k ts e =
    let h = run-IsWorld m ts (start k) (start-IsWorld m k e) in omega (arith, h.lock.alone)

-- What the C program relies on for one side: never fewer cars than none nor more than the buffer has
-- room for, and every waiting car where the flag person will look for it.
pub record IsQueue (r : Road) : Type 0 where
  pub left_arrived : r.con ≤ r.prod
  pub fits : r.prod ≤ r.con + buff_size
  pub in_slot : (car : ℕ) → r.con ≤ car → car < r.prod → r.buffer (car % buff_size) ≡ car

IsRoad-IsQueue :
    (s : Side) (ve vf : ℤ) (r : Road) (f : Flag) (dozes : Bool)
    → IsRoad s ve vf r f dozes
    → IsQueue r
IsRoad-IsQueue s ve vf r f dozes h =
    let (low, high) = road-bounds s ve vf r f dozes h in
    record { left_arrived = low; fits = high; in_slot = h.slots }

-- In every run from the start, on both sides, no more cars were taken than arrived, at most 10 cars
-- wait, and no waiting car's slot of the circular buffer has been overwritten.
pub queues_hold :
    (m : Semaphores) (k : m.K) (ts : List Turn) (s : Side)
    → m.view k ≡ start_sems
    → IsQueue (road m s (run m ts (start k)))
queues_hold m k ts north e =
    IsRoad-IsQueue _ _ _ _ _ _ (run-IsWorld m ts (start k) (start-IsWorld m k e)).northern
queues_hold m k ts south e =
    IsRoad-IsQueue _ _ _ _ _ _ (run-IsWorld m ts (start k) (start-IsWorld m k e)).southern

-- In every run from the start, if the flag person sleeps in a system call, it is in down(mutex): its
-- test of `value > 0` keeps down(full) from putting it to sleep.
pub flag_waits_for_mutex :
    (m : Semaphores) (k : m.K) (ts : List Turn)
    → m.view k ≡ start_sems
    → sleeps m flagperson (run m ts (start k)) ≡ true
    → (t : Side) × ((run m ts (start k)).flag ≡ removing t)
flag_waits_for_mutex m k ts e = (run-IsWorld m ts (start k) (start-IsWorld m k e)).waits
