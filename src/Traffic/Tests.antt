-- ===== src/Traffic/Tests.antt =====
-- The simulation of trafficsim.c on the system calls of sys.c, in short runs.
use operating_system_impleme.Prelude.{
  List, [], int_pred, int_succ, refl, some, true, ◌+ℤ◌, ◌-ℤ◌, ◌∷◌, ◌≡◌, ◌≤◌,
}
use operating_system_impleme.Semaphore.{down, up, update}
use operating_system_impleme.Traffic.{
  Side, Turn, arrive, flag_step, flag_turn, flagperson, lower, mutex, north, producer,
  producer_step, producer_turn, raise, removing, road, run, sleeps, south, turn,
}
use operating_system_impleme.Traffic.Invariant.{total_awake}
use operating_system_impleme.Traffic.Safety.{
  IsQueue, flag_waits_for_mutex, mutual_exclusion, queues_hold, start,
}
use operating_system_impleme.Traffic.Jam.{IsJammed, jam}
use operating_system_impleme.Traffic.Sample.{
  calls, first, first-start, first_kernel, has_some_memory, some_memory,
}
use operating_system_impleme.Traffic.Kernel.{Quiet, sems_of, system_calls_refine}

-- Two cars come from the north, up to the first down(mutex) of the south; the first is taken.
abbrev some_turns : List Turn
some_turns =
    producer_turn north true
    ∷ producer_turn north true
    ∷ producer_turn north true
    ∷ producer_turn north true
    ∷ producer_turn north true
    ∷ producer_turn north true
    ∷ producer_turn south true
    ∷ producer_turn south true
    ∷ producer_turn south true
    ∷ flag_turn
    ∷ flag_turn
    ∷ flag_turn
    ∷ []

mutual_exclusion_example :
    let w = run calls some_turns (start first) in
    total_awake (calls.view w.kernel) w.northern w.southern w.flag ≤ 1
mutual_exclusion_example = mutual_exclusion calls first some_turns first-start

queues_hold_example : IsQueue (road calls north (run calls some_turns (start first)))
queues_hold_example = queues_hold calls first some_turns north first-start

sleeping_flag : sleeps calls flagperson (run calls some_turns (start first)) ≡ true
unfolding run turn producer_step flag_step arrive int_pred int_succ ◌-ℤ◌ ◌+ℤ◌ update
sleeping_flag = refl

flag_waits_for_mutex_example : (t : Side) × ((run calls some_turns (start first)).flag ≡ removing t)
flag_waits_for_mutex_example = flag_waits_for_mutex calls first some_turns first-start sleeping_flag

-- The northern producer sleeps in down(mutex), behind the southern one.
abbrev crossing : List Turn
crossing =
    producer_turn south true
    ∷ producer_turn south true
    ∷ producer_turn south true
    ∷ producer_turn north true
    ∷ producer_turn north true
    ∷ producer_turn north true
    ∷ []

jammed_north : sleeps calls (producer north) (run calls crossing (start first)) ≡ true
unfolding run turn producer_step flag_step arrive int_pred int_succ ◌-ℤ◌ ◌+ℤ◌ update
jammed_north = refl

jam_example :
    IsJammed calls north
      (run calls crossing (start first))
      (run calls some_turns (run calls crossing (start first)))
jam_example = jam calls north some_turns (run calls crossing (start first)) jammed_north

system_calls_refine_example :
    ((q' : Quiet) × (down 0 500 1 104 first_kernel ≡ some q'.0)
      × (sems_of 100 q' ≡ lower (producer north) mutex (sems_of 100 first)))
    × ((q' : Quiet) × (up 104 first_kernel ≡ some q'.0)
        × (sems_of 100 q' ≡ raise mutex (sems_of 100 first)))
system_calls_refine_example =
    system_calls_refine 100 some_memory has_some_memory 0 (producer north) mutex first
