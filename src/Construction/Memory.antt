-- ===== src/Construction/Memory.antt =====
-- The number of the next car in prodcons.c, which `*total_car++` moves along the shared memory.
use operating_system_impleme.Prelude.{
  Bool-cases, ap, arith, false, inl, inr, int_succ, pos, refl, true, ℕ, ℤ, ◌+ℤ◌, ◌+◌, ◌<◌, ◌==◌,
  ◌∙◌, ◌≡◌,
}
use operating_system_impleme.CarQueue.{put_car}

-- The int that the northern producer reads, the one at the southern producer's pointer, and those
-- behind it.
pub record IsCounter (total : ℕ → ℤ) (p : ℕ) : Type 0 where
  pub first : total 0 ≡ pos 1
  pub here : total p ≡ pos 1
  pub behind : (i : ℕ) → p < i → total i ≡ pos 0

int_succ_zero : int_succ (pos 0) ≡ pos 1
unfolding int_succ ◌+ℤ◌
int_succ_zero = refl

same : (p : ℕ) → ((p + 1) == (p + 1)) ≡ true
same p = ground arith

later : (i p : ℕ) → p + 1 < i → (i == (p + 1)) ≡ false
later i p l = ground arith

-- `*total_car++` and `*total_car = *total_car + 1`
pub IsCounter-moves :
    (total : ℕ → ℤ) (p : ℕ)
    → IsCounter total p
    → IsCounter (put_car total (p + 1) (int_succ (total (p + 1)))) (p + 1)
unfolding put_car
IsCounter-moves total p h =
    let one : int_succ (total (p + 1)) ≡ pos 1 =
      ap int_succ (h.behind (p + 1) (omega arith)) ∙ int_succ_zero in
    record {
      first = elim (Bool-cases (0 == (p + 1))) [ inl b ↦ rw b one | inr b ↦ rw b h.first ];
      here = rw (same p) one;
      behind = λ i l. rw (later i p l) (h.behind i (omega (arith, l)));
    }
