-- ===== src/Traffic/Kernel.antt =====
-- The system calls of sys.c as trafficsim.c uses them: five semaphores side by side in shared memory,
-- with no queue, and three processes.
use operating_system_impleme.Prelude.{
  Bool, Bool-cases, arith, false, if◌then◌else◌, inl, inr, int_pred, int_succ, is_negative, refl,
  some, true, ℕ, ℤ, ◌+◌, ◌==◌, ◌||◌, ◌∙◌, ◌≡◌, ◌≢◌,
}
use operating_system_impleme.Traffic.{
  SemName, Semaphores, Sems, TaskName, empty, flagperson, full, lower, mutex, north, producer,
  raise, same_sem, same_task, south,
}
use operating_system_impleme.Semaphore.{Kernel, Ptr, down, null, up, update}
use operating_system_impleme.Semaphore.Lost.{
  IsUnqueued, down_unqueued, revalued, revalued-IsUnqueued, up_unqueued, waiting,
}

-- `sem_ptr`, `sem_ptr + 1` and so on; only their being different matters.
abbrev pub offset : SemName → ℕ
offset (full north) = 0
offset (empty north) = 1
offset (full south) = 2
offset (empty south) = 3
offset mutex = 4

abbrev pub pid : TaskName → ℕ
pid (producer north) = 1
pid (producer south) = 2
pid flagperson = 3

abbrev pub address : Ptr → SemName → Ptr
address sem_ptr s = sem_ptr + offset s

-- A kernel in which every queue is NULL.
abbrev pub Quiet : Type 0
Quiet = (k : Kernel) × IsUnqueued k

abbrev pub sems_of : Ptr → Quiet → Sems
sems_of sem_ptr q = record {
  value = λ s. (q.0.sem (address sem_ptr s)).value;
  asleep = λ t. q.0.asleep (pid t);
}

same_address : (p : Ptr) (a b : SemName) → (address p a == address p b) ≡ same_sem a b
same_address p a b = ground arith

same_pid : (a b : TaskName) → (pid a == pid b) ≡ same_task a b
same_pid a b = ground arith

value-set :
    (p : Ptr) (k : Kernel) (s s' : SemName) (v : ℤ)
    → (update k.sem (address p s) (record (k.sem (address p s)) { value = v }) (address p s')).value
      ≡ (if same_sem s' s then v else (k.sem (address p s')).value)
unfolding update
value-set p k s s' v =
    rw (same_address p s' s)
      (elim (Bool-cases (same_sem s' s)) [ inl b ↦ rw b refl | inr b ↦ rw b refl ])

asleep-set :
    (asleep : ℕ → Bool) (t t' : TaskName)
    → update asleep (pid t) true (pid t')
      ≡ (if same_task t' t then asleep (pid t') || true else asleep (pid t'))
unfolding update
asleep-set asleep t t' = rw (same_pid t' t) (ground arith)

asleep-kept : (b c : Bool) → c ≡ (if b then c || false else c)
asleep-kept b c = ground arith

pub Sems-eq :
    (v v' : Sems)
    → ((s : SemName) → v.value s ≡ v'.value s)
    → ((t : TaskName) → v.asleep t ≡ v'.asleep t)
    → v ≡ v'
Sems-eq v v' e e' = λ i. record { value = λ s. e s i; asleep = λ t. e' t i }

module _ (sem_ptr : Ptr) (kmalloc : Kernel → Ptr)
    (has_memory : (k : Kernel) → kmalloc k ≢ null) where
  -- What `down` of trafficsim.c leaves, with the empty queues still empty.
  abbrev pub quiet_down : TaskName → SemName → Quiet → Quiet
  quiet_down t s (k, h) =
      let v = int_pred (k.sem (address sem_ptr s)).value in
      if is_negative v
      then (
        waiting (kmalloc k) (pid t) (address sem_ptr s) k,
        record { empty = (revalued-IsUnqueued (address sem_ptr s) k h v).empty },
      )
      else (revalued (address sem_ptr s) k v, revalued-IsUnqueued (address sem_ptr s) k h v)

  abbrev pub quiet_up : SemName → Quiet → Quiet
  quiet_up s (k, h) =
      let v = int_succ (k.sem (address sem_ptr s)).value in
      (revalued (address sem_ptr s) k v, revalued-IsUnqueued (address sem_ptr s) k h v)

  down_implements :
      (fuel : ℕ) (t : TaskName) (s : SemName) (q : Quiet)
      → down fuel (kmalloc q.0) (pid t) (address sem_ptr s) q.0 ≡ some (quiet_down t s q).0
  down_implements fuel t s (k, h) =
      down_unqueued fuel (kmalloc k) (pid t) (address sem_ptr s) k (has_memory k) h ∙ ground arith

  up_implements : (s : SemName) (q : Quiet) → up (address sem_ptr s) q.0 ≡ some (quiet_up s q).0
  up_implements s (k, h) = up_unqueued (address sem_ptr s) k h

  pub up-view :
      (s : SemName) (q : Quiet) → sems_of sem_ptr (quiet_up s q) ≡ raise s (sems_of sem_ptr q)
  up-view s (k, h) = Sems-eq _ _ (λ s'. value-set sem_ptr k s s' _) (λ t. refl)

  pub down-view :
      (t : TaskName) (s : SemName) (q : Quiet)
      → sems_of sem_ptr (quiet_down t s q) ≡ lower t s (sems_of sem_ptr q)
  down-view t s (k, h) =
      let v = int_pred (k.sem (address sem_ptr s)).value in
      elim (Bool-cases (is_negative v)) [
        | inl b ↦
            rw b (Sems-eq _ _ (λ s'. value-set sem_ptr k s s' v) (λ t'. asleep-set k.asleep t t'))
        | inr b ↦ rw b (
            Sems-eq _ _ (λ s'. value-set sem_ptr k s s' v)
              (λ t'. asleep-kept (same_task t' t) (k.asleep (pid t'))))
      ]

  -- The two system calls, as the processes of trafficsim.c use them.
  abbrev pub kernel_semaphores : Semaphores
  kernel_semaphores = record {
    K = Quiet;
    view = sems_of sem_ptr;
    down = quiet_down;
    up = quiet_up;
    view-down = down-view;
    view-up = up-view;
  }

-- When kmalloc has memory and every queue is NULL, csc452_down and csc452_up on the five semaphores of
-- trafficsim.c return, keep every queue NULL, and do to the values and to the sleeping processes what
-- `lower` and `raise` say: only the one semaphore changes, by one, and only the calling process goes
-- to sleep, when the new value is negative.
pub system_calls_refine :
    (sem_ptr : Ptr) (kmalloc : Kernel → Ptr) (has_memory : (k : Kernel) → kmalloc k ≢ null)
    (fuel : ℕ) (t : TaskName) (s : SemName) (q : Quiet)
    → ((q' : Quiet) × (down fuel (kmalloc q.0) (pid t) (address sem_ptr s) q.0 ≡ some q'.0)
        × (sems_of sem_ptr q' ≡ lower t s (sems_of sem_ptr q)))
      × ((q' : Quiet) × (up (address sem_ptr s) q.0 ≡ some q'.0)
          × (sems_of sem_ptr q' ≡ raise s (sems_of sem_ptr q)))
system_calls_refine p kmalloc mem fuel t s q = (
  (
    quiet_down p kmalloc mem t s q,
    down_implements p kmalloc mem fuel t s q,
    down-view p kmalloc mem t s q,
  ),
  (quiet_up p kmalloc mem s q, up_implements p kmalloc mem s q, up-view p kmalloc mem s q),
)
