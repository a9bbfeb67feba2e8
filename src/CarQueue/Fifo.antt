-- ===== src/CarQueue/Fifo.antt =====
-- The circular queue of prodcons.c as a list of at most 30 cars.
use operating_system_impleme.Prelude.{
  List, [], ap, arith, eqb_ℤ, false, if◌then◌else◌, length, length-append, minus_one, pos, refl,
  suc, true, ℕ, ℤ, ◌%◌, ◌++◌, ◌+ℤ◌, ◌+◌, ◌-ℤ◌, ◌<◌, ◌==◌, ◌∙◌, ◌∷◌, ◌≡◌, ◌≤◌,
}
use operating_system_impleme.CarQueue.{
  CarQueue, advance_front, car_at, dequeue, enqueue, is_empty, is_full, next_index, put_car, resize,
}

-- The slots from `i` on, round the array, hold these cars.
abbrev pub Window : (ℕ → ℤ) → ℕ → List ℤ → Type 0
Window car i [] = Unit
Window car i (x ∷ xs) = (car (i % 30) ≡ x) × Window car (suc i) xs

-- The car `x` waits at the slot `f`, with `xs` behind it.
pub record Waiting (q : CarQueue) (x : ℤ) (xs : List ℤ) : Type 0 where
  pub f : ℕ
  pub front : q.front ≡ pos f
  pub slot : f < 30
  pub few : length xs < 30
  pub rear : q.rear ≡ pos ((f + length xs) % 30)
  pub size : q.size ≡ pos (suc (length xs))
  pub cars : Window q.car f (x ∷ xs)

-- The cars that wait. `size` counts them while there is one.
abbrev pub IsQueue : CarQueue → List ℤ → Type 0
IsQueue q [] = (q.front ≡ minus_one) × (q.rear ≡ minus_one)
IsQueue q (x ∷ xs) = Waiting q x xs

Window-round :
    (car : ℕ → ℤ) (i j : ℕ) (xs : List ℤ) → i % 30 ≡ j % 30 → Window car i xs → Window car j xs
Window-round car i j [] e w = tt
Window-round car i j (x ∷ xs) e w =
    (rw e at w.0, Window-round car (suc i) (suc j) xs (omega arith) w.1)

Window-put :
    (car : ℕ → ℤ) (i p : ℕ) (e : ℤ) (xs : List ℤ)
    → i + length xs ≤ p
    → p < i + 30
    → Window car i xs
    → Window (put_car car (p % 30) e) i xs
unfolding put_car
Window-put car i p e [] low high w = tt
Window-put car i p e (x ∷ xs) low high w =
    let other : (i % 30 == p % 30) ≡ false = ground arith in
    (rw other w.0, Window-put car (suc i) p e xs (omega arith) (omega arith) w.1)

Window-append :
    (car : ℕ → ℤ) (i p : ℕ) (e : ℤ) (xs : List ℤ)
    → i + length xs ≡ p
    → Window car i xs
    → car (p % 30) ≡ e
    → Window car i (xs ++ (e ∷ []))
Window-append car i p e [] at w here = let same : i ≡ p = omega arith in (rw same here, tt)
Window-append car i p e (x ∷ xs) at w here =
    (w.0, Window-append car (suc i) p e xs (omega arith) w.1 here)

put_car_self : (car : ℕ → ℤ) (i : ℕ) (e : ℤ) → put_car car i e i ≡ e
unfolding put_car
put_car_self car i e = ground arith

next_index_pos : (n : ℕ) → next_index (pos n) ≡ (n + 1) % 30
unfolding next_index ◌+ℤ◌
next_index_pos n = ground arith

resize_size :
    (f n : ℕ)
    → f < 30
    → n < 30
    → (q : CarQueue) → q.front ≡ pos f
    → q.rear ≡ pos ((f + n) % 30)
    → (resize q).size ≡ pos (suc n)
unfolding resize ◌+ℤ◌ ◌-ℤ◌
resize_size f n hf hn q ef er = rw (ef, er) (ground arith)

next_index_none : next_index minus_one ≡ 0
unfolding next_index ◌+ℤ◌
next_index_none = refl

empty-not_full : (q : CarQueue) → q.front ≡ minus_one → q.rear ≡ minus_one → is_full q ≡ false
unfolding is_full ◌+ℤ◌
empty-not_full q ef er = rw (ef, er) refl

-- is_full tells when there are 30 cars.
is_full_iff : (q : CarQueue) (x : ℤ) (xs : List ℤ) → Waiting q x xs → is_full q ≡ (length xs == 29)
unfolding is_full ◌+ℤ◌
is_full_iff q x xs h = rw (h.front, h.rear) (ground (arith, h.slot, h.few))

-- Indices and slots that stand for the cars are a queue once `size` is set from them.
resized-Waiting :
    (q : CarQueue) (f : ℕ) (x : ℤ) (xs : List ℤ)
    → q.front ≡ pos f
    → f < 30
    → length xs < 30
    → q.rear ≡ pos ((f + length xs) % 30)
    → Window q.car f (x ∷ xs)
    → Waiting (resize q) x xs
unfolding resize
resized-Waiting q f x xs ef hf hn er w = record {
  f = f;
  front = ef;
  slot = hf;
  few = hn;
  rear = er;
  size = resize_size f (length xs) hf hn q ef er;
  cars = w;
}

-- What enqueue makes of a queue with room.
put_at : CarQueue → ℤ → ℕ → ℤ → CarQueue
put_at q front r e = record q { front = front; rear = pos r; car = put_car q.car r e }

enqueue-room :
    (q : CarQueue) (front : ℤ) (r : ℕ) (e : ℤ)
    → is_full q ≡ false
    → (if eqb_ℤ q.front minus_one then pos 0 else q.front) ≡ front
    → next_index q.rear ≡ r
    → enqueue q e ≡ resize (put_at q front r e)
unfolding enqueue put_at
enqueue-room q front r e room ef er = rw (room, ef, er) refl

-- enqueue on a queue with room puts the car behind the others.
pub enqueue_appends :
    (q : CarQueue) (xs : List ℤ) (e : ℤ)
    → IsQueue q xs
    → length xs < 30
    → IsQueue (enqueue q e) (xs ++ (e ∷ []))
unfolding put_at
enqueue_appends q [] e (ef, er) room =
    rw
      (enqueue-room q (pos 0) 0 e (empty-not_full q ef er) (rw ef refl)
        (ap next_index er ∙ next_index_none))
      (resized-Waiting (put_at q (pos 0) 0 e) 0 e [] refl (omega arith) (omega arith) refl
        (put_car_self q.car 0 e, tt))
enqueue_appends q (x ∷ xs) e h room =
    let p : ℕ = h.f + suc (length xs) in
    let space : is_full q ≡ false = is_full_iff q x xs h ∙ ground arith in
    let used : (if eqb_ℤ q.front minus_one then pos 0 else q.front) ≡ q.front =
      rw h.front (ground arith) in
    let next : next_index q.rear ≡ p % 30 =
      ap next_index h.rear ∙ (next_index_pos ((h.f + length xs) % 30) ∙ omega arith) in
    let longer = length-append xs (e ∷ []) in
    rw (enqueue-room q q.front (p % 30) e space used next) (
      resized-Waiting (put_at q q.front (p % 30) e) h.f x (xs ++ (e ∷ [])) h.front h.slot
        (omega (arith, longer)) (ap (λ k. pos ((h.f + k) % 30)) (omega (arith, longer)))
        (Window-append (put_car q.car (p % 30) e) h.f p e (x ∷ xs) refl
          (Window-put q.car h.f p e (x ∷ xs) (omega arith) (omega (arith, h.few)) h.cars)
          (put_car_self q.car (p % 30) e)))

-- enqueue on a full queue does nothing.
pub enqueue_full :
    (q : CarQueue) (xs : List ℤ) (e : ℤ) → IsQueue q xs → length xs ≡ 30 → enqueue q e ≡ q
unfolding enqueue
enqueue_full q [] e h full = absurd (omega arith)
enqueue_full q (x ∷ xs) e h full =
    let no_space : is_full q ≡ true = is_full_iff q x xs h ∙ ground arith in rw no_space refl

pub not_empty : (q : CarQueue) (x : ℤ) (xs : List ℤ) → Waiting q x xs → is_empty q ≡ false
unfolding is_empty
not_empty q x xs h = rw h.front (ground arith)

first_car : (q : CarQueue) (x : ℤ) (xs : List ℤ) → Waiting q x xs → car_at q q.front ≡ x
first_car q x xs h =
    let here : h.f % 30 ≡ h.f = omega (arith, h.slot) in rw h.front (rw here at h.cars.0)

pub advance_last :
    (q : CarQueue) (x : ℤ)
    → Waiting q x []
    → advance_front q ≡ record q { front = minus_one; rear = minus_one }
unfolding advance_front
advance_last q x h =
    let same : eqb_ℤ q.front q.rear ≡ true = rw (h.front, h.rear) (ground (arith, h.slot)) in
    rw same refl

advance_more :
    (q : CarQueue) (x y : ℤ) (xs : List ℤ)
    → (h : Waiting q x (y ∷ xs)) → advance_front q ≡ record q { front = pos ((h.f + 1) % 30) }
unfolding advance_front
advance_more q x y xs h =
    let apart : eqb_ℤ q.front q.rear ≡ false =
      rw (h.front, h.rear) (ground (arith, h.slot, h.few)) in
    rw (apart, h.front, next_index_pos h.f) refl

-- dequeue on an empty queue returns -1 and does nothing.
pub dequeue-none : (q : CarQueue) → IsQueue q [] → dequeue q ≡ (minus_one, q)
unfolding dequeue is_empty
dequeue-none q (ef, er) =
    let none_waits : eqb_ℤ q.front minus_one ≡ true = rw ef refl in rw none_waits refl

-- dequeue takes the car that has waited longest.
pub dequeue_first :
    (q : CarQueue) (x : ℤ) (xs : List ℤ)
    → IsQueue q (x ∷ xs)
    → ((dequeue q).0 ≡ x) × IsQueue (dequeue q).1 xs
unfolding dequeue
dequeue_first q x [] h =
    rw (not_empty q x [] h, advance_last q x h) (first_car q x [] h, unfold resize in (refl, refl))
dequeue_first q x (y ∷ xs) h =
    let f : ℕ = (h.f + 1) % 30 in
    rw (not_empty q x (y ∷ xs) h, advance_more q x y xs h)
      (
        first_car q x (y ∷ xs) h,
        resized-Waiting (record q { front = pos f }) f y xs refl (omega arith)
            (omega (arith, h.few)) (h.rear ∙ ap pos (omega (arith, h.slot)))
            (Window-round q.car (suc h.f) f (y ∷ xs) (omega arith) h.cars.1),
      )
