-- ===== src/CarQueue/Bounded.antt =====
-- The circular queue of prodcons.c against its contract: a first-in first-out queue of 30 places.
use operating_system_impleme.Prelude.{
  Bool-cases, List, [], arith, false, if◌then◌else◌, inl, inr, leb, length, minus_one, pos, refl,
  suc, tests, ℤ, ◌++◌, ◌+ℤ◌, ◌-ℤ◌, ◌==◌, ◌∷◌, ◌≡◌, ◌≤◌,
}
use operating_system_impleme.CarQueue.{CarQueue, dequeue, enqueue, resize}
use operating_system_impleme.CarQueue.Fifo.{
  IsQueue, advance_last, dequeue-none, dequeue_first, enqueue_appends, enqueue_full, not_empty,
}

pub data Op : Type 0 where
  enqueue_op : (element : ℤ) → Op
  dequeue_op : Op

-- The values that the calls of dequeue return, and the queue at the end.
unfoldable pub run : List Op → CarQueue → List ℤ × CarQueue
run [] q = ([], q)
run (enqueue_op e ∷ ops) q = run ops (enqueue q e)
run (dequeue_op ∷ ops) q = let (outs, q') = run ops (dequeue q).1 in ((dequeue q).0 ∷ outs, q')

-- The contract: a list of at most 30 cars, which drops what comes when it is full, and gives -1 when
-- it is empty.
abbrev pub insert : ℤ → List ℤ → List ℤ
insert e xs = if leb 30 (length xs) then xs else xs ++ (e ∷ [])

abbrev pub first_or_none : List ℤ → ℤ
first_or_none [] = minus_one
first_or_none (x ∷ xs) = x

abbrev pub rest_of : List ℤ → List ℤ
rest_of [] = []
rest_of (x ∷ xs) = xs

unfoldable pub run_list : List Op → List ℤ → List ℤ × List ℤ
run_list [] xs = ([], xs)
run_list (enqueue_op e ∷ ops) xs = run_list ops (insert e xs)
run_list (dequeue_op ∷ ops) xs =
    let (outs, ys) = run_list ops (rest_of xs) in (first_or_none xs ∷ outs, ys)

IsQueue-low : (q : CarQueue) (xs : List ℤ) → IsQueue q xs → length xs ≤ 30
IsQueue-low q [] h = omega arith
IsQueue-low q (x ∷ xs) h = omega (arith, h.few)

enqueue-insert :
    (q : CarQueue) (xs : List ℤ) (e : ℤ) → IsQueue q xs → IsQueue (enqueue q e) (insert e xs)
enqueue-insert q xs e h = elim (Bool-cases (leb 30 (length xs))) [
  | inl full ↦ rw full (rw (enqueue_full q xs e h (omega (arith, tests, IsQueue-low q xs h))) h)
  | inr room ↦ rw room (enqueue_appends q xs e h (ground arith))
]

dequeue-rest :
    (q : CarQueue) (xs : List ℤ)
    → IsQueue q xs
    → ((dequeue q).0 ≡ first_or_none xs) × IsQueue (dequeue q).1 (rest_of xs)
dequeue-rest q [] h = rw (dequeue-none q h) (refl, h)
dequeue-rest q (x ∷ xs) h = dequeue_first q x xs h

-- Any calls of enqueue and dequeue on a queue that holds `xs` return what a first-in first-out list of
-- at most 30 places returns, and leave the queue that holds what the list holds.
pub run_refines :
    (ops : List Op) (q : CarQueue) (xs : List ℤ)
    → IsQueue q xs
    → ((run ops q).0 ≡ (run_list ops xs).0) × IsQueue (run ops q).1 (run_list ops xs).1
unfolding run run_list
run_refines [] q xs h = (refl, h)
run_refines (enqueue_op e ∷ ops) q xs h =
    run_refines ops (enqueue q e) (insert e xs) (enqueue-insert q xs e h)
run_refines (dequeue_op ∷ ops) q xs h =
    let (out, h') = dequeue-rest q xs h in
    let (outs, final) = run_refines ops (dequeue q).1 (rest_of xs) h' in
    (rw (out, outs) refl, final)

-- After dequeue takes a car, `size` is the number of cars that are left, but it is 1 when none is left.
pub dequeue-size :
    (q : CarQueue) (x : ℤ) (xs : List ℤ)
    → IsQueue q (x ∷ xs)
    → (dequeue q).1.size ≡ (if length xs == 0 then pos 1 else pos (length xs))
unfolding dequeue resize ◌+ℤ◌ ◌-ℤ◌
dequeue-size q x [] h = rw (not_empty q x [] h, advance_last q x h) refl
dequeue-size q x (y ∷ xs) h =
    let some_left : (suc (length xs) == 0) ≡ false = ground arith in
    rw some_left (unfold dequeue in (dequeue_first q x (y ∷ xs) h).1.size)
