-- ===== src/Construction/Scene.antt =====
-- The invariant of the three processes of prodcons.c.
use operating_system_impleme.Prelude.{
  Bool, List, [], arith, false, if◌then◌else◌, length, pos, true, ℕ, ◌+◌, ◌<◌, ◌∷◌, ◌≡◌,
}
use operating_system_impleme.Traffic.{
  Flag, Producer, Sems, empty, flagperson, full, mutex, north, producer, south,
}
use operating_system_impleme.Traffic.Mutex.{IsMutex, if_awake, locked, locked_flag}
use operating_system_impleme.Construction.{Report, Site, came, crossed, dozed, honked, woke}
use operating_system_impleme.Construction.Sides.{IsSide}
use operating_system_impleme.Construction.Memory.{IsCounter}

-- A car that comes, blows its horn or leaves has the number 1, and nobody falls asleep.
abbrev pub IsFine : Report → Type 0
IsFine woke = Unit
IsFine (honked s car) = car ≡ pos 1
IsFine (came s car) = car ≡ pos 1
IsFine (crossed s car) = car ≡ pos 1
IsFine dozed = ⊥

-- The log, but for the first line that `main` prints before the forks.
abbrev pub AllFine : List Report → Type 0
AllFine [] = Unit
AllFine (r ∷ []) = r ≡ dozed
AllFine (r ∷ s ∷ rs) = IsFine r × AllFine (s ∷ rs)

pub AllFine-add :
    (r : Report) (log : List Report) → IsFine r → AllFine log → 0 < length log → AllFine (r ∷ log)
AllFine-add r [] f h l = absurd (omega (arith, l))
AllFine-add r (s ∷ log) f h l = (f, h)

pub record IsLog (log : List Report) : Type 0 where
  pub fine : AllFine log
  pub printed : 0 < length log

pub IsLog-add : (r : Report) (log : List Report) → IsFine r → IsLog log → IsLog (r ∷ log)
IsLog-add r log f h = record { fine = AllFine-add r log f h.fine h.printed; printed = omega arith }

pub IsLog-if :
    (b : Bool) (log log' : List Report) → IsLog log → IsLog log' → IsLog (if b then log else log')
IsLog-if true log log' h h' = h
IsLog-if false log log' h h' = h'

-- The processes past down(mutex), and those of them that do not sleep.
abbrev pub holders : Producer → Producer → Flag → ℕ
holders n s f = locked n + locked s + locked_flag f

abbrev pub awake_holders : Sems → Producer → Producer → Flag → ℕ
awake_holders v n s f =
    if_awake (v.asleep (producer north)) (locked n)
    + if_awake (v.asleep (producer south)) (locked s)
    + if_awake (v.asleep flagperson) (locked_flag f)

pub record IsScene {K : Type 0} (v : Sems) (w : Site K) : Type 0 where
  pub northern :
      IsSide north
        (v.value (empty north))
        (v.value (full north))
        w.north_queue
        w.north_place
        w.flag
        (v.asleep (producer north))
        (v.asleep flagperson)
  pub southern :
      IsSide south
        (v.value (empty south))
        (v.value (full south))
        w.south_queue
        w.south_place
        w.flag
        (v.asleep (producer south))
        (v.asleep flagperson)
  pub lock :
      IsMutex
        (v.value mutex)
        (holders w.north_place w.south_place w.flag)
        (awake_holders v w.north_place w.south_place w.flag)
  pub counter : IsCounter w.total w.total_car
  pub flag_dozes : w.flag_sleep ≡ true
  pub reports : IsLog w.log
