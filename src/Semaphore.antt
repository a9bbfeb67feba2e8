-- ===== src/Semaphore.antt =====
-- The counting semaphore of "Semaphore and Synchronization/sys.c": the system calls csc452_down and
-- csc452_up, over a kernel heap that holds the queue of sleeping tasks.
pub mod Update
pub mod Lost
pub mod Count
mod Tests
use operating_system_impleme.Prelude.{
  Bool, Option, false, if◌then◌else◌, int_pred, int_succ, is_negative, is_nonpositive, none, some,
  suc, true, zero, ℕ, ℤ, ◌==◌,
}

abbrev pub Ptr : Type 0
Ptr = ℕ

abbrev pub null : Ptr
null = 0

-- `process_queue`; a task is its number.
pub record ProcessQueue : Type 0 where
  pub task : ℕ
  pub next : Ptr

-- `csc452_sem`
pub record Sem : Type 0 where
  pub value : ℤ
  pub process : Ptr

-- What the system calls read and write: the nodes that kmalloc has given, the semaphores by their
-- addresses, the tasks in state TASK_INTERRUPTIBLE, and whether `sem_lock` is held.
pub record Kernel : Type 0 where
  pub heap : Ptr → Option ProcessQueue
  pub sem : Ptr → Sem
  pub asleep : ℕ → Bool
  pub sem_lock : Bool

-- A call whose kmalloc returns NULL writes through it while the lock is held, and a dangling pointer
-- faults too: none. On fuel the walk to the tail gives up with none as well.
abbrev pub Step : Type 0
Step = Kernel → Option Kernel

unfoldable pub update {ℓ} : {A : Type ℓ} → (ℕ → A) → ℕ → A → ℕ → A
update f i a j = if j == i then a else f j

abbrev pub lock : Kernel → Kernel
lock k = record k { sem_lock = true }

abbrev pub unlock : Kernel → Kernel
unlock k = record k { sem_lock = false }

abbrev pub set_value : Ptr → ℤ → Kernel → Kernel
set_value s v k = record k { sem = update k.sem s (record (k.sem s) { value = v }) }

abbrev pub set_process : Ptr → Ptr → Kernel → Kernel
set_process s p k = record k { sem = update k.sem s (record (k.sem s) { process = p }) }

abbrev pub store : Ptr → Option ProcessQueue → Kernel → Kernel
store p n k = record k { heap = update k.heap p n }

-- `while (temp->next != NULL) temp = temp->next;`
unfoldable pub last_node : ℕ → Ptr → Kernel → Option Ptr
last_node zero temp k = none
last_node (suc fuel) temp k = elim (k.heap temp) [
  | none ↦ none
  | some n ↦ let rest = last_node fuel n.next k in if n.next == null then some temp else rest
]

-- `temp->next = p`
unfoldable pub set_next : Ptr → Ptr → Step
set_next temp p k = elim (k.heap temp) [
  | none ↦ none
  | some n ↦ some (store temp (some (record n { next = p })) k)
]

-- The queue part of csc452_down: the new node goes behind the last one. With an empty queue only the
-- local variable `head` is set.
unfoldable pub link_node : ℕ → Ptr → Ptr → Step
link_node fuel s p k =
    let head = (k.sem s).process in
    if head == null
    then some k
    else elim (last_node fuel head k) [ none ↦ none | some temp ↦ set_next temp p k ]

-- `set_current_state(TASK_INTERRUPTIBLE)`, and then the lock is given back before `schedule()`.
abbrev pub sleep : ℕ → Kernel → Kernel
sleep current k = unlock (record k { asleep = update k.asleep current true })

-- csc452_down by the task `current`, where `allocated` is what kmalloc returns.
unfoldable pub down : ℕ → Ptr → ℕ → Ptr → Step
down fuel allocated current s k =
    let k₁ = set_value s (int_pred (k.sem s).value) (lock k) in
    if is_negative (int_pred (k.sem s).value)
    then (if allocated == null
        then none
        else elim (link_node fuel s allocated
            (store allocated (some (record { task = current; next = null })) k₁)) [
              | none ↦ none
              | some k₂ ↦ some (sleep current k₂)
            ])
    else some (unlock k₁)

-- The part of csc452_up that takes the longest waiting task out of the queue, wakes it and frees its
-- node. `kfree(NULL)` does nothing.
unfoldable pub wake_first : Ptr → Step
wake_first s k =
    let head = (k.sem s).process in
    if head == null then some k else elim (k.heap head) [
      | none ↦ none
      | some n ↦ some (
          store head none
            (record (set_process s n.next k) { asleep = update k.asleep n.task false }))
    ]

-- csc452_up
unfoldable pub up : Ptr → Step
up s k =
    let k₁ = set_value s (int_succ (k.sem s).value) (lock k) in
    if is_nonpositive (int_succ (k.sem s).value)
    then elim (wake_first s k₁) [ none ↦ none | some k₂ ↦ some (unlock k₂) ]
    else some (unlock k₁)
