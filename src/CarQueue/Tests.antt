-- ===== src/CarQueue/Tests.antt =====
-- Runs of the circular queue.
use operating_system_impleme.Prelude.{
  List, [], arith, if◌then◌else◌, pos, refl, ◌+ℤ◌, ◌-ℤ◌, ◌==◌, ◌∷◌, ◌≡◌,
}
use operating_system_impleme.CarQueue.{
  CarQueue, advance_front, dequeue, enqueue, is_empty, is_full, new_queue, next_index, put_car,
  resize,
}
use operating_system_impleme.CarQueue.Fifo.{IsQueue, enqueue_appends}
use operating_system_impleme.CarQueue.Bounded.{
  Op, dequeue-size, dequeue_op, enqueue_op, run, run_list, run_refines,
}

abbrev calls : List Op
calls = enqueue_op (pos 4) ∷ dequeue_op ∷ enqueue_op (pos 5) ∷ enqueue_op (pos 6) ∷ dequeue_op ∷ []

run_refines_example :
    ((run calls new_queue).0 ≡ (run_list calls []).0)
    × IsQueue (run calls new_queue).1 (run_list calls []).1
run_refines_example = run_refines calls new_queue [] (refl, refl)

-- The last car leaves, and `size` says that there is one.
last_size : (dequeue (enqueue new_queue (pos 1))).1.size ≡ pos 1
unfolding dequeue enqueue resize advance_front next_index is_full is_empty put_car ◌+ℤ◌ ◌-ℤ◌
last_size = refl

abbrev one_car : CarQueue
one_car = enqueue new_queue (pos 4)

dequeue-size_example : (dequeue one_car).1.size ≡ (if 0 == 0 then pos 1 else pos 0)
dequeue-size_example =
    dequeue-size one_car (pos 4) []
      (enqueue_appends new_queue [] (pos 4) (refl, refl) (omega arith))
