-- ===== src/Traffic/Roads.antt =====
-- The counters and semaphores of one side of trafficsim.c, and what each statement makes of them.
use operating_system_impleme.Prelude.{
  Bool, Bool-cases, arith, false, inl, inr, int_pred, int_pred_parts, int_succ, int_succ_parts,
  is_negative, is_negative_parts, neg_part, pos_part, refl, sym, true, ℕ, ℤ, ◌%◌, ◌+◌, ◌<◌, ◌==◌,
  ◌≡◌, ◌≢◌, ◌≤◌, ◌⊎◌,
}
use operating_system_impleme.Traffic.{
  Flag, Producer, Road, Side, arrive, at_empty, at_mutex, entering, freeing, idle, inside, leaving,
  north, passing, removing, signalling, south, taking, testing,
}

abbrev pub on_side : Side → Side → ℕ
on_side north north = 1
on_side north south = 0
on_side south north = 0
on_side south south = 1

-- Past down(empty), and the car not yet counted.
abbrev pub announced : Producer → ℕ
announced at_mutex = 1
announced inside = 1
announced _ = 0

-- The car counted, and up(full) still to come.
abbrev pub unsignalled : Producer → ℕ
unsignalled leaving = 1
unsignalled signalling = 1
unsignalled _ = 0

-- Past down(full) on this side, and the car not yet taken.
abbrev pub claimed : Side → Flag → ℕ
claimed s (entering t) = on_side s t
claimed s (removing t) = on_side s t
claimed s _ = 0

-- The car taken on this side, and up(empty) still to come.
abbrev pub unfreed : Side → Flag → ℕ
unfreed s (passing t car) = on_side s t
unfreed s (freeing t) = on_side s t
unfreed s _ = 0

-- How the values of `empty` and `full`, the counters and the places of the processes fit together.
pub record IsRoad (s : Side) (ve vf : ℤ) (r : Road) (f : Flag) (sleeps : Bool) : Type 0 where
  pub places : pos_part ve + r.prod + announced r.pc + unfreed s f ≡ neg_part ve + 10 + r.con
  pub cars : pos_part vf + r.con + claimed s f + unsignalled r.pc ≡ neg_part vf + r.prod
  pub full_low : neg_part vf ≡ 0
  pub empty_low : (neg_part ve ≡ 0) ⊎ ((neg_part ve ≡ 1) × (r.pc ≡ at_mutex) × (sleeps ≡ true))
  pub ready : f ≡ taking s → 0 < pos_part vf
  pub slots : (i : ℕ) → r.con ≤ i → i < r.prod → r.buffer (i % 10) ≡ i

-- The queue of cars never has more than 10, nor fewer than none.
pub road-bounds :
    (s : Side) (ve vf : ℤ) (r : Road) (f : Flag) (sleeps : Bool)
    → IsRoad s ve vf r f sleeps
    → (r.con ≤ r.prod) × (r.prod ≤ r.con + 10)
road-bounds s ve vf r f sleeps h = ground arith

abbrev pub at : Producer → Road → Road
at pc r = record r { pc = pc }

-- Another place of the flag person that has the same claims on this side.
pub flag-moves :
    (s : Side) (ve vf : ℤ) (r : Road) (f f' : Flag) (sleeps : Bool)
    → claimed s f' ≡ claimed s f
    → unfreed s f' ≡ unfreed s f
    → (f' ≡ taking s → 0 < pos_part vf)
    → IsRoad s ve vf r f sleeps
    → IsRoad s ve vf r f' sleeps
flag-moves s ve vf r f f' sleeps c u ready h = record {
  places = omega (arith, h.places, u);
  cars = omega (arith, h.cars, c);
  full_low = h.full_low;
  empty_low = h.empty_low;
  ready = ready;
  slots = h.slots;
}

-- Another place of the producer, awake before, with the same claims.
pub producer-moves :
    (s : Side) (ve vf : ℤ) (r : Road) (f : Flag) (pc : Producer) (sleeps : Bool)
    → announced pc ≡ announced r.pc
    → unsignalled pc ≡ unsignalled r.pc
    → IsRoad s ve vf r f false
    → IsRoad s ve vf (at pc r) f sleeps
producer-moves s ve vf r f pc sleeps a u h = record {
  places = omega (arith, h.places, a);
  cars = omega (arith, h.cars, u);
  full_low = h.full_low;
  empty_low = elim h.empty_low [ inl e ↦ inl e | inr (e, e', e'') ↦ cc ];
  ready = h.ready;
  slots = h.slots;
}

pub on_side_self : (s : Side) → on_side s s ≡ 1
on_side_self north = refl
on_side_self south = refl

-- A producer that does not sleep has let `empty` fall to 0 at most.
empty-low_awake :
    (s : Side) (ve vf : ℤ) (r : Road) (f : Flag) → IsRoad s ve vf r f false → neg_part ve ≡ 0
empty-low_awake s ve vf r f h = elim h.empty_low [ inl e ↦ e | inr (e, e', e'') ↦ cc ]

same_slot : (a b : ℕ) → a ≤ b → b < a + 10 → a % 10 ≡ b % 10 → a ≡ b
same_slot a b l u e = omega arith

-- A new car overwrites no car of the queue.
filled :
    (r : Road)
    → r.prod < r.con + 10
    → ((i : ℕ) → r.con ≤ i → i < r.prod → r.buffer (i % 10) ≡ i)
    → (i : ℕ) → r.con ≤ i
    → i < r.prod + 1
    → (arrive r).buffer (i % 10) ≡ i
unfolding arrive
filled r room h i l u = elim (Bool-cases ((i % 10) == (r.prod % 10))) [
  | inl b ↦
      let same : (i % 10) ≡ r.prod % 10 = ground arith in
      rw b (sym (same_slot i r.prod (omega arith) (omega arith) same))
  | inr b ↦ let other : i ≢ r.prod = ground arith in rw b (h i l (omega (arith, u, other)))
]

module _ (s : Side) (ve vf : ℤ) (r : Road) where
  -- `down(empty)`
  pub IsRoad-at_empty :
      (f : Flag)
      → r.pc ≡ at_empty
      → IsRoad s ve vf r f false
      → IsRoad s (int_pred ve) vf (at at_mutex r) f (is_negative (int_pred ve))
  IsRoad-at_empty f e h =
      let low = empty-low_awake s ve vf r f h in
      let (p, n) = int_pred_parts ve (omega (arith, low)) in
      record {
        places = rw (p, n) (ground arith);
        cars = ground arith;
        full_low = h.full_low;
        empty_low = elim (is_negative_parts (int_pred ve)) [
          | inl (b, c) ↦ inr (omega (arith, n, low, c), refl, b)
          | inr (b, c) ↦ inl c
        ];
        ready = h.ready;
        slots = h.slots;
      }

  -- The car is put into the buffer and counted.
  pub IsRoad-inside :
      (f : Flag) (sleeps : Bool)
      → r.pc ≡ inside
      → IsRoad s ve vf r f false
      → IsRoad s ve vf (arrive r) f sleeps
  unfolding arrive
  IsRoad-inside f sleeps e h =
      let low = empty-low_awake s ve vf r f h in
      record {
        places = ground arith;
        cars = ground arith;
        full_low = h.full_low;
        empty_low = inl low;
        ready = h.ready;
        slots = filled r (ground arith) h.slots;
      }

  -- `up(full)`
  pub IsRoad-signalling :
      (f : Flag) (sleeps : Bool)
      → r.pc ≡ signalling
      → IsRoad s ve vf r f false
      → IsRoad s ve (int_succ vf) (at idle r) f sleeps
  IsRoad-signalling f sleeps e h =
      let low = empty-low_awake s ve vf r f h in
      let (p, n) = int_succ_parts vf (ground arith) in
      record {
        places = ground arith;
        cars = ground arith;
        full_low = omega (arith, n, h.full_low);
        empty_low = inl low;
        ready = λ q. omega (arith, p, h.ready q);
        slots = h.slots;
      }

module _ (s : Side) (ve vf : ℤ) (r : Road) (sleeps : Bool) where
  -- `down(full)`, behind the test
  pub IsRoad-taking :
      IsRoad s ve vf r (taking s) sleeps → IsRoad s ve (int_pred vf) r (entering s) sleeps
  IsRoad-taking h =
      let some_car = h.ready refl in
      let (p, n) = int_pred_parts vf (omega (arith, h.full_low)) in
      let own = on_side_self s in
      record {
        places = h.places;
        cars = omega (arith, h.cars, p, n, own, some_car);
        full_low = omega (arith, n, h.full_low, some_car);
        empty_low = h.empty_low;
        ready = λ q. cc;
        slots = h.slots;
      }

  -- `*n_con = *n_con + 1`
  pub IsRoad-removing :
      (car : ℕ)
      → IsRoad s ve vf r (removing s) sleeps
      → IsRoad s ve vf (record r { con = r.con + 1 }) (passing s car) sleeps
  IsRoad-removing car h =
      let own = on_side_self s in
      record {
        places = omega (arith, h.places, own);
        cars = omega (arith, h.cars, own);
        full_low = h.full_low;
        empty_low = h.empty_low;
        ready = λ q. cc;
        slots = λ i l u. h.slots i (omega (arith, l)) u;
      }

  -- `up(empty)`
  pub IsRoad-freeing :
      IsRoad s ve vf r (freeing s) sleeps → IsRoad s (int_succ ve) vf r (testing s) sleeps
  IsRoad-freeing h =
      let (p, n) = int_succ_parts ve (ground arith) in
      let own = on_side_self s in
      record {
        places = omega (arith, h.places, p, n, own);
        cars = h.cars;
        full_low = h.full_low;
        empty_low = inl (ground arith);
        ready = λ q. cc;
        slots = h.slots;
      }
