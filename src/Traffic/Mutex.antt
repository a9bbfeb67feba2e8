-- ===== src/Traffic/Mutex.antt =====
-- The semaphore `mutex` of trafficsim.c, and who is between down(mutex) and up(mutex).
use operating_system_impleme.Prelude.{
  Bool, arith, if◌then◌else◌, inl, inr, int_pred, int_pred_parts, int_succ, int_succ_parts,
  is_negative, is_negative_parts, neg_part, pos_part, suc, zero, ℕ, ℤ, ◌+◌, ◌≡◌, ◌≤◌,
}
use operating_system_impleme.Traffic.{Flag, Producer, inside, leaving, passing, removing}

-- Past down(mutex) and before up(mutex), awake or asleep in it.
abbrev pub locked : Producer → ℕ
locked inside = 1
locked leaving = 1
locked _ = 0

abbrev pub locked_flag : Flag → ℕ
locked_flag (removing s) = 1
locked_flag (passing s car) = 1
locked_flag _ = 0

abbrev pub if_awake : Bool → ℕ → ℕ
if_awake asleep zero = 0
if_awake asleep (suc n) = if asleep then 0 else suc n

-- `total` are the processes past down(mutex), and `awake` those of them that do not sleep.
pub record IsMutex (m : ℤ) (total awake : ℕ) : Type 0 where
  pub places : pos_part m + total ≡ neg_part m + 1
  pub alone : pos_part m + awake ≤ 1

-- `down(mutex)`: the process is alone, or it sleeps.
pub mutex-down :
    (m : ℤ) (total awake : ℕ)
    → total ≤ 2
    → IsMutex m total awake
    → IsMutex (int_pred m) (suc total) (if_awake (is_negative (int_pred m)) 1 + awake)
mutex-down m total awake few h =
    let (p, n) = int_pred_parts m (omega (arith, h.places, h.alone, few)) in
    record {
      places = omega (arith, h.places, p, n);
      alone = elim (is_negative_parts (int_pred m)) [
        | inl (b, c) ↦ rw b (omega (arith, h.alone, p))
        | inr (b, c) ↦ rw b (omega (arith, h.alone, h.places, p, n, c))
      ];
    }

-- `up(mutex)` by a process that had it.
pub mutex-up :
    (m : ℤ) (total awake : ℕ) → IsMutex m (suc total) (suc awake) → IsMutex (int_succ m) total awake
mutex-up m total awake h =
    let (p, n) = int_succ_parts m (omega (arith, h.alone)) in
    record {
      places = omega (arith, h.places, h.alone, p, n);
      alone = omega (arith, h.places, h.alone, p, n);
    }
