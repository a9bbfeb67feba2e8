-- ===== src/Construction/Tests.antt =====
-- The main program of prodcons.c on the system calls of sys.c, in a short run.
use operating_system_impleme.Prelude.{
  List, [], int_pred, int_succ, pos, refl, ◌+ℤ◌, ◌-ℤ◌, ◌∷◌, ◌≡◌, ◌≤◌,
}
use operating_system_impleme.Traffic.{TaskName, flagperson, north, producer, south}
use operating_system_impleme.Traffic.Sample.{calls, first, first-start}
use operating_system_impleme.Construction.{
  came, crossed, dozed, guard_step, honked, move, moves, north_step, queue_of, south_step,
  start_site, woke,
}
use operating_system_impleme.Construction.Scene.{AllFine, awake_holders}
use operating_system_impleme.Construction.Safety.{
  HoldsTen, every_car_is_one, one_inside, queues_hold_ten,
}
use operating_system_impleme.Semaphore.{update}
use operating_system_impleme.CarQueue.{
  advance_front, dequeue, enqueue, is_empty, is_full, next_index, put_car, resize,
}

-- A car comes from each side, and the flag person takes the northern one.
abbrev some_moves : List TaskName
some_moves =
    producer north
    ∷ producer north
    ∷ producer north
    ∷ producer north
    ∷ producer north
    ∷ producer south
    ∷ producer south
    ∷ producer south
    ∷ producer south
    ∷ producer south
    ∷ flagperson
    ∷ flagperson
    ∷ flagperson
    ∷ flagperson
    ∷ flagperson
    ∷ []

-- What it prints, the latest line first.
some_log :
    (moves calls some_moves (start_site first)).log
    ≡ crossed north (pos 1)
      ∷ came south (pos 1)
      ∷ honked south (pos 1)
      ∷ came north (pos 1)
      ∷ honked north (pos 1)
      ∷ woke
      ∷ dozed
      ∷ []
unfolding moves move north_step south_step guard_step int_pred int_succ ◌-ℤ◌ ◌+ℤ◌ update enqueue
    dequeue is_full is_empty resize advance_front next_index put_car
some_log = refl

every_car_is_one_example : AllFine (moves calls some_moves (start_site first)).log
every_car_is_one_example = every_car_is_one calls first some_moves first-start

one_inside_example :
    let w = moves calls some_moves (start_site first) in
    awake_holders (calls.view w.kernel) w.north_place w.south_place w.flag ≤ 1
one_inside_example = one_inside calls first some_moves first-start

queues_hold_ten_example :
    HoldsTen (queue_of calls south (moves calls some_moves (start_site first)))
queues_hold_ten_example = queues_hold_ten calls first some_moves south first-start
