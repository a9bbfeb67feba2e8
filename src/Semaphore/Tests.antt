-- ===== src/Semaphore/Tests.antt =====
-- The calls of sys.c on small kernels.
use operating_system_impleme.Prelude.{
  List, [], arith, false, int_pred, int_succ, is_negative, neg_part, none, pos, pos_part, refl,
  some, true, ◌+ℤ◌, ◌+◌, ◌-ℤ◌, ◌∷◌, ◌≡◌,
}
use operating_system_impleme.Semaphore.{Kernel, down, link_node, null, up, update, wake_first}
use operating_system_impleme.Semaphore.Lost.{Call, down_call, lost_wakeup, perform, run, up_call}
use operating_system_impleme.Semaphore.Count.{downs, ups, value_balance}

-- A free semaphore with nothing queued.
abbrev fresh : Kernel
fresh = record {
  heap = λ p. none;
  sem = λ s. record { value = pos 0; process = null };
  asleep = λ t. false;
  sem_lock = false;
}

taken_value : is_negative (int_pred (fresh.sem 1).value) ≡ true
unfolding int_pred ◌-ℤ◌
taken_value = refl

lost_wakeup_example :
    (k' : Kernel) × (run 1 (down_call 10 5 1 ∷ up_call 1 ∷ down_call 11 6 1 ∷ up_call 1 ∷ []) fresh
      ≡ some k')
    × (k'.asleep 5 ≡ true)
lost_wakeup_example =
    lost_wakeup 1 10 5 1 (up_call 1 ∷ down_call 11 6 1 ∷ up_call 1 ∷ []) fresh
      (record { empty = λ s. refl }) taken_value (λ e. omega arith)
      (tt, ((λ e. omega arith), (tt, tt)))

abbrev some_calls : List Call
some_calls = down_call 10 5 1 ∷ up_call 1 ∷ down_call 11 6 1 ∷ []

abbrev after : Kernel
after = elim (run 1 some_calls fresh) [ none ↦ fresh | some k ↦ k ]

value_balance_example :
    pos_part (after.sem 1).value + neg_part (fresh.sem 1).value + downs 1 some_calls
    ≡ neg_part (after.sem 1).value + pos_part (fresh.sem 1).value + ups 1 some_calls
unfolding run perform down up update link_node wake_first int_pred int_succ ◌-ℤ◌ ◌+ℤ◌
value_balance_example = value_balance 1 some_calls fresh after 1 refl (omega arith, omega arith)
