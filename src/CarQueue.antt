-- ===== src/CarQueue.antt =====
-- The circular queue of "Semaphore and Synchronization/prodcons.c", in which the cars of one side of
-- the road wait.
pub mod Fifo
pub mod Bounded
mod Tests
use operating_system_impleme.Prelude.{
  Bool, eqb_ℤ, if◌then◌else◌, ltb_ℤ, minus_one, pos, pos_part, ℕ, ℤ, ◌%◌, ◌&&◌, ◌+ℤ◌, ◌-ℤ◌, ◌-◌,
  ◌==◌, ◌||◌,
}

abbrev pub max_queue_size : ℕ
max_queue_size = 30

-- `car_queue`
pub record CarQueue : Type 0 where
  pub car : ℕ → ℤ
  pub front : ℤ
  pub rear : ℤ
  pub size : ℤ

-- `is_full`; `rear + 1` cannot overflow, since rear is below 30.
unfoldable pub is_full : CarQueue → Bool
is_full q =
    eqb_ℤ q.front (q.rear +ℤ pos 1)
    || (eqb_ℤ q.front (pos 0) && eqb_ℤ q.rear (pos (max_queue_size - 1)))

-- `is_empty`
unfoldable pub is_empty : CarQueue → Bool
is_empty q = eqb_ℤ q.front minus_one

-- `(v + 1) % MAX_QUEUE_SIZE`, on an index from -1 on.
unfoldable pub next_index : ℤ → ℕ
next_index v = pos_part (v +ℤ pos 1) % max_queue_size

-- `my_queue->car[i]`, on an index from 0 on.
abbrev pub car_at : CarQueue → ℤ → ℤ
car_at q i = q.car (pos_part i)

-- The last statement of enqueue and of dequeue, which sets `size` from the two indices.
unfoldable pub resize : CarQueue → CarQueue
resize q = record q {
  size =
      if ltb_ℤ q.rear q.front
      then pos max_queue_size -ℤ q.front +ℤ q.rear +ℤ pos 1
      else q.rear -ℤ q.front +ℤ pos 1;
}

unfoldable pub put_car : (ℕ → ℤ) → ℕ → ℤ → ℕ → ℤ
put_car car i element j = if j == i then element else car j

-- `enqueue`
unfoldable pub enqueue : CarQueue → ℤ → CarQueue
enqueue q element =
    let front = if eqb_ℤ q.front minus_one then pos 0 else q.front in
    let rear = next_index q.rear in
    if is_full q
    then q
    else resize (record q { front = front; rear = pos rear; car = put_car q.car rear element })

-- The indices that dequeue leaves.
unfoldable pub advance_front : CarQueue → CarQueue
advance_front q =
    if eqb_ℤ q.front q.rear
    then record q { front = minus_one; rear = minus_one }
    else record q { front = pos (next_index q.front) }

-- `dequeue`: the first car, or -1.
unfoldable pub dequeue : CarQueue → ℤ × CarQueue
dequeue q = if is_empty q then (minus_one, q) else (car_at q q.front, resize (advance_front q))

-- The queue as `main` makes it out of zeroed memory.
abbrev pub new_queue : CarQueue
new_queue = record { car = λ i. pos 0; front = minus_one; rear = minus_one; size = pos 0 }
