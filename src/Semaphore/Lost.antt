-- ===== src/Semaphore/Lost.antt =====
-- Semaphores of sys.c whose queue is NULL, as every program here sets it, and sequences of calls.
use operating_system_impleme.Prelude.{
  Bool, Bool-cases, List, [], arith, false, if◌then◌else◌, inl, inr, int_pred, int_succ,
  is_negative, none, refl, some, true, ℕ, ℤ, ◌==◌, ◌∙◌, ◌∷◌, ◌≡◌, ◌≢◌,
}
use operating_system_impleme.Semaphore.{
  Kernel, Ptr, Step, down, link_node, lock, null, set_value, sleep, store, unlock, up, update,
  wake_first,
}
use operating_system_impleme.Semaphore.Update.{update_self}

-- A system call: of a task whose kmalloc returns a pointer, or of a waker.
pub data Call : Type 0 where
  down_call : (allocated : Ptr) → (current : ℕ) → (s : Ptr) → Call
  up_call : (s : Ptr) → Call

unfoldable pub perform : ℕ → Call → Step
perform fuel (down_call allocated current s) = down fuel allocated current s
perform fuel (up_call s) = up s

-- Calls one after another, in the order in which they take the lock.
unfoldable pub run : ℕ → List Call → Step
run fuel [] k = some k
run fuel (c ∷ cs) k = elim (perform fuel c k) [ none ↦ none | some k' ↦ run fuel cs k' ]

pub record IsUnqueued (k : Kernel) : Type 0 where
  pub empty : (s : Ptr) → (k.sem s).process ≡ null

-- kmalloc has memory.
abbrev pub IsServed : Call → Type 0
IsServed (down_call allocated current s) = allocated ≢ null
IsServed (up_call s) = Unit

abbrev pub AllServed : List Call → Type 0
AllServed [] = Unit
AllServed (c ∷ cs) = IsServed c × AllServed cs

process-update :
    (k : Kernel) (s r : Ptr) (v : ℤ)
    → (update k.sem s (record (k.sem s) { value = v }) r).process ≡ (k.sem r).process
unfolding update
process-update k s r v = ground arith

-- What one call makes of semaphores with no queue: the queues stay empty, and who sleeps sleeps on.
record Unwoken (k k' : Kernel) : Type 0 where
  unqueued : IsUnqueued k'
  still : (t : ℕ) → k.asleep t ≡ true → k'.asleep t ≡ true

asleep-update : (f : ℕ → Bool) (a t : ℕ) → f t ≡ true → update f a true t ≡ true
unfolding update
asleep-update f a t h = ground arith

-- The kernel after the value is set and the lock is given back.
abbrev pub revalued : Ptr → Kernel → ℤ → Kernel
revalued s k v = unlock (set_value s v (lock k))

module _ (s : Ptr) (k : Kernel) (h : IsUnqueued k) (v : ℤ) where
  no_queue : ((set_value s v (lock k)).sem s).process == null ≡ true
  no_queue = let e = process-update k s s v ∙ h.empty s in rw e

  pub revalued-IsUnqueued : IsUnqueued (revalued s k v)
  revalued-IsUnqueued = record { empty = λ r. process-update k s r v ∙ h.empty r }

-- The kernel after a csc452_down that has to wait, and after a call that does not.
abbrev pub waiting : ℕ → ℕ → Ptr → Kernel → Kernel
waiting allocated current s k = sleep current (
    store allocated (some (record { task = current; next = null }))
      (set_value s (int_pred (k.sem s).value) (lock k)))

-- csc452_down leaves its own node unlinked.
pub down_unqueued :
    (fuel allocated current : ℕ) (s : Ptr) (k : Kernel)
    → allocated ≢ null
    → IsUnqueued k
    → down fuel allocated current s k
      ≡ some (
          if is_negative (int_pred (k.sem s).value)
          then waiting allocated current s k
          else revalued s k (int_pred (k.sem s).value))
unfolding down link_node
down_unqueued fuel allocated current s k served h =
    let given : (allocated == null) ≡ false = ground arith in
    rw (no_queue s k h (int_pred (k.sem s).value), given) (ground arith)

-- csc452_up changes the value and nothing else.
pub up_unqueued :
    (s : Ptr) (k : Kernel) → IsUnqueued k → up s k ≡ some (revalued s k (int_succ (k.sem s).value))
unfolding up wake_first
up_unqueued s k h = rw (no_queue s k h (int_succ (k.sem s).value)) (ground arith)

perform-Unwoken :
    (fuel : ℕ) (c : Call) (k : Kernel)
    → IsServed c
    → IsUnqueued k
    → (k' : Kernel) × (perform fuel c k ≡ some k') × Unwoken k k'
unfolding perform
perform-Unwoken fuel (down_call allocated current s) k served h =
    let v = int_pred (k.sem s).value in
    elim (Bool-cases (is_negative v)) [
      | inl neg ↦ (
        waiting allocated current s k,
        down_unqueued fuel allocated current s k served h ∙ rw neg,
        record {
          unqueued = record { empty = (revalued-IsUnqueued s k h v).empty };
          still = asleep-update k.asleep current;
        },
      )
      | inr nonneg ↦ (
        revalued s k v,
        down_unqueued fuel allocated current s k served h ∙ rw nonneg,
        record { unqueued = revalued-IsUnqueued s k h v; still = λ t e. e },
      )
    ]
perform-Unwoken fuel (up_call s) k served h = (
  revalued s k (int_succ (k.sem s).value),
  up_unqueued s k h,
  record { unqueued = revalued-IsUnqueued s k h (int_succ (k.sem s).value); still = λ t e. e },
)

run-Unwoken :
    (fuel : ℕ) (calls : List Call) (k : Kernel)
    → AllServed calls
    → IsUnqueued k
    → (k' : Kernel) × (run fuel calls k ≡ some k') × Unwoken k k'
unfolding run
run-Unwoken fuel [] k served h = (k, refl, record { unqueued = h; still = λ t e. e })
run-Unwoken fuel (c ∷ cs) k served h =
    let (k₁, e, u) = perform-Unwoken fuel c k served.0 h in
    let (k₂, e', u') = run-Unwoken fuel cs k₁ served.1 u.unqueued in
    (k₂, rw (run, e) e', record { unqueued = u'.unqueued; still = λ t a. u'.still t (u.still t a) })

-- A lost wake-up: a task that goes to sleep in csc452_down on a semaphore whose value is not positive
-- sleeps on, whatever calls of csc452_down and csc452_up follow, if all queues were NULL before.
pub lost_wakeup :
    (fuel allocated current : ℕ) (s : Ptr) (calls : List Call) (k : Kernel)
    → IsUnqueued k
    → is_negative (int_pred (k.sem s).value) ≡ true
    → allocated ≢ null
    → AllServed calls
    → (k' : Kernel) × (run fuel (down_call allocated current s ∷ calls) k ≡ some k')
      × (k'.asleep current ≡ true)
unfolding run perform
lost_wakeup fuel allocated current s calls k h neg served rest =
    let k₁ = waiting allocated current s k in
    let e : down fuel allocated current s k ≡ some k₁ =
      down_unqueued fuel allocated current s k served h ∙ rw neg in
    let h₁ : IsUnqueued k₁ = record {
      empty = (revalued-IsUnqueued s k h (int_pred (k.sem s).value)).empty;
    } in
    let (k₂, e', u) = run-Unwoken fuel calls k₁ rest h₁ in
    (k₂, rw (run, e) e', u.still current (update_self k.asleep current true))
