-- ===== src/Semaphore/Count.antt =====
-- The value of a semaphore of sys.c over calls of csc452_down and csc452_up.
use operating_system_impleme.Prelude.{
  List, Option-cases, [], arith, false, if◌then◌else◌, inl, inr, int_pred, int_succ, length,
  neg_part, pos_part, some, suc, sym, ℕ, ℤ, ◌+◌, ◌<◌, ◌==◌, ◌^◌, ◌∙◌, ◌∷◌, ◌≡◌,
}
use operating_system_impleme.Semaphore.{
  Kernel, Ptr, Sem, down, link_node, lock, null, set_next, set_value, store, up, update, wake_first,
}
use operating_system_impleme.Semaphore.Lost.{Call, down_call, perform, run, up_call}

-- How a call changes the value of the semaphore `r`.
abbrev pub counted : Call → Ptr → ℤ → ℤ
counted (down_call a current s) r v = if r == s then int_pred v else v
counted (up_call s) r v = if r == s then int_succ v else v

pub record Counted (c : Call) (k k' : Kernel) : Type 0 where
  pub value : (r : Ptr) → (k'.sem r).value ≡ counted c r (k.sem r).value
  pub free : k'.sem_lock ≡ false

valued :
    (f : Ptr → Sem) (s r : Ptr) (v : ℤ)
    → (update f s (record (f s) { value = v }) r).value ≡ (if r == s then v else (f r).value)
unfolding update
valued f s r v = ground arith

linked :
    (fuel : ℕ) (s a : Ptr) (k k' : Kernel)
    → link_node fuel s a k ≡ some k'
    → (r : Ptr) → k'.sem r ≡ k.sem r
unfolding link_node set_next
linked fuel s a k k' e r = ground arith

down-Counted :
    (fuel a current : ℕ) (s : Ptr) (k k' : Kernel)
    → down fuel a current s k ≡ some k'
    → Counted (down_call a current s) k k'
unfolding down
down-Counted fuel a current s k k' e =
    let v = int_pred (k.sem s).value in
    let k₁ = store a (some (record { task = current; next = null })) (set_value s v (lock k)) in
    elim (Option-cases (link_node fuel s a k₁)) [
      | inl fails ↦ record { value = λ r. ground (arith, valued k.sem s r v); free = ground arith }
      | inr (k₂, links) ↦ record {
        value = λ r. ground (arith, valued k.sem s r v, linked fuel s a k₁ k₂ links r);
        free = ground arith;
      }
    ]

up-Counted : (s : Ptr) (k k' : Kernel) → up s k ≡ some k' → Counted (up_call s) k k'
unfolding up wake_first update
up-Counted s k k' e = record { value = λ r. ground arith; free = ground arith }

perform-Counted :
    (fuel : ℕ) (c : Call) (k k' : Kernel) → perform fuel c k ≡ some k' → Counted c k k'
unfolding perform
perform-Counted fuel (down_call a current s) k k' e = down-Counted fuel a current s k k' e
perform-Counted fuel (up_call s) k k' e = up-Counted s k k' e

-- Whether a call is a csc452_down on `r`, and whether it is a csc452_up, as 1 or 0.
abbrev pub is_down : Ptr → Call → ℕ
is_down r (down_call a current s) = if r == s then 1 else 0
is_down r (up_call s) = 0

abbrev pub is_up : Ptr → Call → ℕ
is_up r (down_call a current s) = 0
is_up r (up_call s) = if r == s then 1 else 0

-- The calls on the semaphore `r` among a sequence.
unfoldable pub downs : Ptr → List Call → ℕ
downs r [] = 0
downs r (c ∷ cs) = is_down r c + downs r cs

unfoldable pub ups : Ptr → List Call → ℕ
ups r [] = 0
ups r (c ∷ cs) = is_up r c + ups r cs

-- The value stays this far from the ends of an int.
abbrev pub Within : ℤ → ℕ → Type 0
Within v n = (pos_part v + n < 2 ^ 31) × (neg_part v + n < 2 ^ 31)

pred-parts :
    (v : ℤ) (n : ℕ)
    → Within v (suc n)
    → (pos_part (int_pred v) + neg_part v + 1 ≡ neg_part (int_pred v) + pos_part v)
      × Within (int_pred v) n
unfolding int_pred
pred-parts v n w = ground arith

succ-parts :
    (v : ℤ) (n : ℕ)
    → Within v (suc n)
    → (pos_part (int_succ v) + neg_part v ≡ neg_part (int_succ v) + pos_part v + 1)
      × Within (int_succ v) n
unfolding int_succ
succ-parts v n w = ground arith

counted-parts :
    (c : Call) (r : Ptr) (v : ℤ) (n : ℕ)
    → Within v (suc n)
    → (pos_part (counted c r v) + neg_part v + is_down r c
        ≡ neg_part (counted c r v) + pos_part v + is_up r c)
      × Within (counted c r v) n
counted-parts (down_call a current s) r v n w = ground (arith, pred-parts v n w)
counted-parts (up_call s) r v n w = ground (arith, succ-parts v n w)

-- In a sequence of calls that all return, the value of a semaphore falls by one for each csc452_down
-- on it and rises by one for each csc452_up, whether or not tasks are queued, as long as it stays
-- that far from the ends of an int.
pub value_balance :
    (fuel : ℕ) (calls : List Call) (k k' : Kernel) (r : Ptr)
    → run fuel calls k ≡ some k'
    → Within (k.sem r).value (length calls)
    → pos_part (k'.sem r).value + neg_part (k.sem r).value + downs r calls
      ≡ neg_part (k'.sem r).value + pos_part (k.sem r).value + ups r calls
unfolding run downs ups
value_balance fuel [] k k' r e w = ground arith
value_balance fuel (c ∷ cs) k k' r e w = elim (Option-cases (perform fuel c k)) [
  | inl fails ↦ absurd (ground (arith, fails))
  | inr (k₁, first) ↦
      let at_r = (perform-Counted fuel c k k₁ first).value r in
      let (step, w') = counted-parts c r (k.sem r).value (length cs) w in
      let rest : run fuel cs k₁ ≡ some k' = sym (rw (run, first)) ∙ e in
      let ih = value_balance fuel cs k₁ k' r rest (rw at_r w') in
      omega (arith, ih, rw (← at_r) at step)
]
