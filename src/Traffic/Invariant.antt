-- ===== src/Traffic/Invariant.antt =====
-- The invariant of the simulation in trafficsim.c: both sides of the road, the mutex, and where the flag
-- person may wait.
use operating_system_impleme.Prelude.{Bool, arith, false, true, ℕ, ℤ, ◌+◌, ◌≡◌, ◌≤◌}
use mathlib.Core.Path.{subst}
use operating_system_impleme.Traffic.{
  Flag, Producer, Road, Sems, Side, empty, flagperson, full, mutex, north, producer, removing,
  south,
}
use operating_system_impleme.Traffic.Roads.{IsRoad}
use operating_system_impleme.Traffic.Mutex.{IsMutex, if_awake, locked, locked_flag}

abbrev pub SideOf : Side → Sems → Road → Flag → Type 0
SideOf s v r f = IsRoad s (v.value (empty s)) (v.value (full s)) r f (v.asleep (producer s))

-- The processes past down(mutex), and those of them that do not sleep.
abbrev pub total : Road → Road → Flag → ℕ
total n s f = locked n.pc + locked s.pc + locked_flag f

abbrev pub total_awake : Sems → Road → Road → Flag → ℕ
total_awake v n s f =
    if_awake (v.asleep (producer north)) (locked n.pc)
    + if_awake (v.asleep (producer south)) (locked s.pc)
    + if_awake (v.asleep flagperson) (locked_flag f)

pub record IsTraffic (v : Sems) (n s : Road) (f : Flag) : Type 0 where
  pub northern : SideOf north v n f
  pub southern : SideOf south v s f
  pub lock : IsMutex (v.value mutex) (total n s f) (total_awake v n s f)
  pub waits : v.asleep flagperson ≡ true → (t : Side) × (f ≡ removing t)

pub locked-bound : (pc : Producer) → locked pc ≤ 1
locked-bound pc = ground arith

pub locked_flag-bound : (f : Flag) → locked_flag f ≤ 1
locked_flag-bound f = ground arith

-- What is known of an awake producer.
pub awake-IsRoad :
    (s : Side) (ve vf : ℤ) (r : Road) (f : Flag) (dozes : Bool)
    → dozes ≡ false
    → IsRoad s ve vf r f dozes
    → IsRoad s ve vf r f false
awake-IsRoad s ve vf r f dozes e h = subst (λ b. IsRoad s ve vf r f b) e h

pub IsMutex-eq : (m : ℤ) (t a t' a' : ℕ) → t ≡ t' → a ≡ a' → IsMutex m t a → IsMutex m t' a'
IsMutex-eq m t a t' a' e e' h = record {
  places = omega (arith, h.places, e);
  alone = omega (arith, h.alone, e');
}
