-- ===== src/Traffic/Jam.antt =====
-- What becomes of a producer of trafficsim.c that has gone to sleep in csc452_down.
use operating_system_impleme.Prelude.{
  Bool, Bool-cases, List, [], false, if◌then◌else◌, inl, inr, refl, true, ◌∙◌, ◌∷◌, ◌≡◌,
}
use operating_system_impleme.Traffic.{
  Flag, Producer, SemName, Semaphores, Sems, Side, TaskName, Turn, World, arrive, at_empty,
  at_mutex, empty, entering, flag_step, flag_turn, flagperson, freeing, full, idle, inside, leaving,
  lower, mutex, north, opposite, passing, producer, producer_step, producer_turn, removing, resting,
  road, run, same_task, signalling, sleeps, south, taking, testing, turn,
}

lower-asleep :
    (t : TaskName) (s : SemName) (v : Sems) (t' : TaskName)
    → v.asleep t' ≡ true
    → (lower t s v).asleep t' ≡ true
lower-asleep t s v t' h = elim (Bool-cases (same_task t' t)) [
  | inl b ↦ rw (b, h) refl
  | inr b ↦ rw (b, h) refl
]

module _ (m : Semaphores) where
  open m use {K, view, down, up}

  down-asleep :
      (t : TaskName) (s : SemName) (k : K) (t' : TaskName)
      → (view k).asleep t' ≡ true
      → (view (down t s k)).asleep t' ≡ true
  down-asleep t s k t' h = rw (m.view-down t s k) (lower-asleep t s (view k) t' h)

  up-asleep :
      (s : SemName) (k : K) (t' : TaskName)
      → (view k).asleep t' ≡ true
      → (view (up s k)).asleep t' ≡ true
  up-asleep s k t' h = rw (m.view-up s k) h

  -- The producer of side `s` sleeps on, and no car has come.
  pub record IsJammed (s : Side) (w w' : World K) : Type 0 where
    pub still : sleeps m (producer s) w' ≡ true
    pub no_car : (road m s w').prod ≡ (road m s w).prod

  -- From what a turn makes of the kernel and of the two counters.
  jammed :
      (s : Side) (w w' : World K)
      → sleeps m (producer s) w' ≡ true
      → (w'.northern.prod ≡ w.northern.prod)
      → (w'.southern.prod ≡ w.southern.prod)
      → IsJammed s w w'
  jammed north w w' h n e = record { still = h; no_car = n }
  jammed south w w' h n e = record { still = h; no_car = e }

  flag_step-IsJammed :
      (s : Side) (f : Flag) (w : World K)
      → sleeps m (producer s) w ≡ true
      → IsJammed s w (flag_step m f w)
  unfolding flag_step
  flag_step-IsJammed s (testing t) w h = jammed s _ _ h refl refl
  flag_step-IsJammed s (taking t) w h =
      jammed s _ _ (down-asleep flagperson (full t) w.kernel (producer s) h) refl refl
  flag_step-IsJammed s (entering t) w h =
      jammed s _ _ (down-asleep flagperson mutex w.kernel (producer s) h) refl refl
  flag_step-IsJammed s (removing north) w h = jammed s _ _ h refl refl
  flag_step-IsJammed s (removing south) w h = jammed s _ _ h refl refl
  flag_step-IsJammed s (passing t car) w h =
      jammed s _ _ (up-asleep mutex w.kernel (producer s) h) refl refl
  flag_step-IsJammed s (freeing t) w h =
      jammed s _ _ (up-asleep (empty t) w.kernel (producer s) h) refl refl
  flag_step-IsJammed s (resting t) w h = jammed s _ _ h refl refl

  -- The statement of the other side's producer.
  other_step-IsJammed :
      (s : Side) (more : Bool) (pc : Producer) (w : World K)
      → sleeps m (producer s) w ≡ true
      → IsJammed s w (producer_step m (opposite s) more pc w)
  unfolding producer_step arrive
  other_step-IsJammed north more idle w h = record { still = h; no_car = refl }
  other_step-IsJammed north more at_empty w h = record {
    still = down-asleep _ _ w.kernel (producer north) h;
    no_car = refl;
  }
  other_step-IsJammed north more at_mutex w h = record {
    still = down-asleep _ _ w.kernel (producer north) h;
    no_car = refl;
  }
  other_step-IsJammed north more inside w h = record { still = h; no_car = refl }
  other_step-IsJammed north more leaving w h = record {
    still = up-asleep _ w.kernel (producer north) h;
    no_car = refl;
  }
  other_step-IsJammed north more signalling w h = record {
    still = up-asleep _ w.kernel (producer north) h;
    no_car = refl;
  }
  other_step-IsJammed south more idle w h = record { still = h; no_car = refl }
  other_step-IsJammed south more at_empty w h = record {
    still = down-asleep _ _ w.kernel (producer south) h;
    no_car = refl;
  }
  other_step-IsJammed south more at_mutex w h = record {
    still = down-asleep _ _ w.kernel (producer south) h;
    no_car = refl;
  }
  other_step-IsJammed south more inside w h = record { still = h; no_car = refl }
  other_step-IsJammed south more leaving w h = record {
    still = up-asleep _ w.kernel (producer south) h;
    no_car = refl;
  }
  other_step-IsJammed south more signalling w h = record {
    still = up-asleep _ w.kernel (producer south) h;
    no_car = refl;
  }

  -- A turn of a process that may sleep.
  turn_or_not :
      (s : Side) (b : Bool) (w w' : World K)
      → sleeps m (producer s) w ≡ true
      → IsJammed s w w'
      → IsJammed s w (if b then w else w')
  turn_or_not s true w w' h j = record { still = h; no_car = refl }
  turn_or_not s false w w' h j = j

  turn-IsJammed :
      (s : Side) (t : Turn) (w : World K)
      → sleeps m (producer s) w ≡ true
      → IsJammed s w (turn m t w)
  unfolding turn
  turn-IsJammed north (producer_turn north more) w h = rw h (record { still = h; no_car = refl })
  turn-IsJammed north (producer_turn south more) w h =
      turn_or_not north _ w _ h (other_step-IsJammed north more _ w h)
  turn-IsJammed south (producer_turn north more) w h =
      turn_or_not south _ w _ h (other_step-IsJammed south more _ w h)
  turn-IsJammed south (producer_turn south more) w h = rw h (record { still = h; no_car = refl })
  turn-IsJammed s flag_turn w h = turn_or_not s _ w _ h (flag_step-IsJammed s w.flag w h)

-- As the queues of the semaphores are NULL, a producer that has gone to sleep in csc452_down sleeps on
-- in every run that follows, and no further car comes from its side.
pub jam :
    (m : Semaphores) (s : Side) (ts : List Turn) (w : World m.K)
    → sleeps m (producer s) w ≡ true
    → IsJammed m s w (run m ts w)
unfolding run
jam m s [] w h = record { still = h; no_car = refl }
jam m s (t ∷ ts) w h =
    let one = turn-IsJammed m s t w h in
    let rest = jam m s ts (turn m t w) one.still in
    record { still = rest.still; no_car = rest.no_car ∙ one.no_car }
