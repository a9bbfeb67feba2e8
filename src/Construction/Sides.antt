-- ===== src/Construction/Sides.antt =====
-- One side of prodcons.c: its queue, its semaphores, and what each statement makes of them.
use operating_system_impleme.Prelude.{
  Bool, List, [], arith, false, inl, inr, int_pred, int_pred_parts, int_succ, int_succ_parts,
  is_negative, is_negative_parts, length, length-append, neg_part, pos, pos_part, refl, suc, true,
  ℕ, ℤ, ◌++◌, ◌+◌, ◌<◌, ◌∙◌, ◌∷◌, ◌≡◌, ◌≤◌, ◌⊎◌,
}
use operating_system_impleme.CarQueue.{CarQueue, dequeue, enqueue}
use operating_system_impleme.CarQueue.Fifo.{IsQueue, dequeue_first, enqueue_appends}
use operating_system_impleme.Traffic.{
  Flag, Producer, Side, at_empty, at_mutex, entering, freeing, inside, leaving, passing, removing,
  signalling, taking, testing,
}
use operating_system_impleme.Traffic.Roads.{announced, claimed, on_side_self, unfreed, unsignalled}

-- Every car has the number 1.
abbrev pub AllOne : List ℤ → Type 0
AllOne [] = Unit
AllOne (x ∷ xs) = (x ≡ pos 1) × AllOne xs

pub AllOne-append : (xs : List ℤ) (x : ℤ) → AllOne xs → x ≡ pos 1 → AllOne (xs ++ (x ∷ []))
AllOne-append [] x h e = (e, tt)
AllOne-append (y ∷ ys) x h e = (h.0, AllOne-append ys x h.1 e)

-- How the values of `empty` and `full`, the queue and the places of the processes fit together;
-- `dozes` and `waits` tell whether the producer and the flag person sleep in a system call.
pub record IsSide (s : Side) (ve vf : ℤ) (q : CarQueue) (pc : Producer) (f : Flag)
    (dozes waits : Bool) : Type 0 where
  pub cars : List ℤ
  pub queued : IsQueue q cars
  pub ones : AllOne cars
  pub room : pos_part ve + length cars + announced pc + unfreed s f ≡ neg_part ve + 10
  pub count : pos_part vf + claimed s f + unsignalled pc ≡ neg_part vf + length cars
  pub empty_low : (neg_part ve ≡ 0) ⊎ ((neg_part ve ≡ 1) × (pc ≡ at_mutex) × (dozes ≡ true))
  pub full_low : (neg_part vf ≡ 0) ⊎ ((neg_part vf ≡ 1) × (f ≡ entering s) × (waits ≡ true))

at_most_one : (n : ℕ) (P Q : Type 0) → (n ≡ 0) ⊎ ((n ≡ 1) × P × Q) → n ≤ 1
at_most_one n P Q (inl e) = omega (arith, e)
at_most_one n P Q (inr (e, h, h')) = omega (arith, e)

-- What dequeue returns and leaves, when a car waits.
record Taken (q : CarQueue) (xs : List ℤ) : Type 0 where
  number : (dequeue q).0 ≡ pos 1
  others : List ℤ
  left_queued : IsQueue (dequeue q).1 others
  left_ones : AllOne others
  shorter : length xs ≡ suc (length others)

take_one : (q : CarQueue) (xs : List ℤ) → IsQueue q xs → AllOne xs → 0 < length xs → Taken q xs
take_one q [] w o h = absurd (omega (arith, h))
take_one q (x ∷ xs) w o h =
    let (out, kept) = dequeue_first q x xs w in
    record { number = out ∙ o.0; others = xs; left_queued = kept; left_ones = o.1; shorter = refl }

module _ (s : Side) (ve vf : ℤ) (q : CarQueue) (pc : Producer) (f : Flag) where
  -- `empty` stays above -1 but for a producer that sleeps in down(empty).
  empty_low_awake : (waits : Bool) → IsSide s ve vf q pc f false waits → neg_part ve ≡ 0
  empty_low_awake waits h = elim h.empty_low [ inl e ↦ e | inr (e, e', e'') ↦ cc ]

  full_low_awake : (dozes : Bool) → IsSide s ve vf q pc f dozes false → neg_part vf ≡ 0
  full_low_awake dozes h = elim h.full_low [ inl e ↦ e | inr (e, e', e'') ↦ cc ]

  -- Another place of an awake producer with the same claims.
  pub IsSide-moves :
      (pc' : Producer) (dozes waits : Bool)
      → announced pc' ≡ announced pc
      → unsignalled pc' ≡ unsignalled pc
      → IsSide s ve vf q pc f false waits
      → IsSide s ve vf q pc' f dozes waits
  IsSide-moves pc' dozes waits a u h = record {
    cars = h.cars;
    queued = h.queued;
    ones = h.ones;
    room = omega (arith, h.room, a);
    count = omega (arith, h.count, u);
    empty_low = inl (empty_low_awake waits h);
    full_low = h.full_low;
  }

  -- Another place of an awake flag person with the same claims on this side.
  pub IsSide-guards :
      (f' : Flag) (dozes waits : Bool)
      → claimed s f' ≡ claimed s f
      → unfreed s f' ≡ unfreed s f
      → IsSide s ve vf q pc f dozes false
      → IsSide s ve vf q pc f' dozes waits
  IsSide-guards f' dozes waits c u h = record {
    cars = h.cars;
    queued = h.queued;
    ones = h.ones;
    room = omega (arith, h.room, u);
    count = omega (arith, h.count, c);
    empty_low = h.empty_low;
    full_low = inl (full_low_awake dozes h);
  }

module _ (s : Side) (ve vf : ℤ) (q : CarQueue) (f : Flag) (waits : Bool) where
  -- `down(empty)`
  pub IsSide-at_empty :
      IsSide s ve vf q at_empty f false waits
      → IsSide s (int_pred ve) vf q at_mutex f (is_negative (int_pred ve)) waits
  IsSide-at_empty h =
      let low = empty_low_awake s ve vf q at_empty f waits h in
      let (p, n) = int_pred_parts ve (omega (arith, low)) in
      record {
        cars = h.cars;
        queued = h.queued;
        ones = h.ones;
        room = omega (arith, h.room, p, n);
        count = h.count;
        empty_low = elim (is_negative_parts (int_pred ve)) [
          | inl (b, c) ↦ inr (omega (arith, n, low, c), refl, b)
          | inr (b, c) ↦ inl c
        ];
        full_low = h.full_low;
      }

  -- `enqueue`, which has room
  pub IsSide-inside :
      (car : ℤ) (dozes : Bool)
      → car ≡ pos 1
      → IsSide s ve vf q inside f false waits
      → IsSide s ve vf (enqueue q car) leaving f dozes waits
  IsSide-inside car dozes one h =
      let low = empty_low_awake s ve vf q inside f waits h in
      let longer = length-append h.cars (car ∷ []) in
      record {
        cars = h.cars ++ (car ∷ []);
        queued = enqueue_appends q h.cars car h.queued (omega (arith, h.room, low));
        ones = AllOne-append h.cars car h.ones one;
        room = omega (arith, h.room, longer);
        count = omega (arith, h.count, longer);
        empty_low = inl low;
        full_low = h.full_low;
      }

  -- `up(full)`
  pub IsSide-signalling :
      (dozes : Bool)
      → IsSide s ve vf q signalling f false waits
      → IsSide s ve (int_succ vf) q at_empty f dozes waits
  IsSide-signalling dozes h =
      let low = empty_low_awake s ve vf q signalling f waits h in
      let (p, n) = int_succ_parts vf (
        omega (
          arith,
          h.count,
          h.room,
          low,
          at_most_one (neg_part vf) (f ≡ entering s) (waits ≡ true) h.full_low,
        )) in
      record {
        cars = h.cars;
        queued = h.queued;
        ones = h.ones;
        room = h.room;
        count = omega (arith, h.count, p, n);
        empty_low = inl low;
        full_low = inl (
            omega (arith, n, at_most_one (neg_part vf) (f ≡ entering s) (waits ≡ true) h.full_low));
      }

module _ (s : Side) (ve vf : ℤ) (q : CarQueue) (pc : Producer) (dozes : Bool) where
  -- `down(full)`
  pub IsSide-taking :
      IsSide s ve vf q pc (taking s) dozes false
      → IsSide s ve (int_pred vf) q pc (entering s) dozes (is_negative (int_pred vf))
  IsSide-taking h =
      let low = full_low_awake s ve vf q pc (taking s) dozes h in
      let (p, n) = int_pred_parts vf (omega (arith, low)) in
      let own = on_side_self s in
      record {
        cars = h.cars;
        queued = h.queued;
        ones = h.ones;
        room = h.room;
        count = omega (arith, h.count, p, n, own);
        empty_low = h.empty_low;
        full_low = elim (is_negative_parts (int_pred vf)) [
          | inl (b, c) ↦ inr (omega (arith, n, low, c), refl, b)
          | inr (b, c) ↦ inl c
        ];
      }

  -- `dequeue`, which has a car
  pub IsSide-removing :
      (car : ℕ) (waits : Bool)
      → IsSide s ve vf q pc (removing s) dozes false
      → ((dequeue q).0 ≡ pos 1) × IsSide s ve vf (dequeue q).1 pc (passing s car) dozes waits
  IsSide-removing car waits h =
      let low = full_low_awake s ve vf q pc (removing s) dozes h in
      let own = on_side_self s in
      let t = take_one q h.cars h.queued h.ones (omega (arith, h.count, low, own)) in
      (
        t.number,
        record {
          cars = t.others;
          queued = t.left_queued;
          ones = t.left_ones;
          room = omega (arith, h.room, t.shorter, own);
          count = omega (arith, h.count, t.shorter, own);
          empty_low = h.empty_low;
          full_low = inl low;
        },
      )

  -- `up(empty)`
  pub IsSide-freeing :
      (waits : Bool)
      → IsSide s ve vf q pc (freeing s) dozes false
      → IsSide s (int_succ ve) vf q pc (testing s) dozes waits
  IsSide-freeing waits h =
      let (p, n) = int_succ_parts ve (
        omega
          (arith, h.room, at_most_one (neg_part ve) (pc ≡ at_mutex) (dozes ≡ true) h.empty_low)) in
      let own = on_side_self s in
      record {
        cars = h.cars;
        queued = h.queued;
        ones = h.ones;
        room = omega (arith, h.room, p, n, own);
        count = h.count;
        empty_low = inl (
            omega (arith, n, at_most_one (neg_part ve) (pc ≡ at_mutex) (dozes ≡ true) h.empty_low));
        full_low = inl (full_low_awake s ve vf q pc (freeing s) dozes h);
      }
