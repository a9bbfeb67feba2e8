-- ===== src/Graphics/Line/Steps.antt =====
-- One round of the loop of draw_line in library.c: how many steps are left, and the two tests.
use operating_system_impleme.Prelude.{
  +ℤ_parts, Bool, Bool-cases, ap, arith, false, inl, inr, int_laws, leb_ℤ, minus_one, neg_part, pos,
  pos_part, refl, suc, true, zero, ℕ, ℤ, ◌*◌, ◌+ℤ◌, ◌+◌, ◌-◌, ◌<◌, ◌≡◌, ◌≤◌,
}
use operating_system_impleme.Graphics.Line.{Line, Pen, step, step_x, step_y}

-- From `v` it takes `a` steps of `s` to get to `w`.
pub data Ahead (s v w : ℤ) (a : ℕ) : Type 0 where
  upward : s ≡ pos 1 → pos_part v + neg_part w + a ≡ pos_part w + neg_part v → Ahead s v w a
  downward : s ≡ minus_one → pos_part v + neg_part w ≡ pos_part w + neg_part v + a → Ahead s v w a

Ahead-step : (s v w : ℤ) (a : ℕ) → Ahead s v w (suc a) → Ahead s (v +ℤ s) w a
Ahead-step s v w a (upward e h) = upward e (rw e (omega (int_laws, +ℤ_parts v (pos 1))))
Ahead-step s v w a (downward e h) = downward e (rw e (omega (int_laws, +ℤ_parts v minus_one)))

-- The pen has made `i` steps in x and `j` in y; `a` and `b` are left.
pub record IsAt (l : Line) (d e i j a b : ℕ) (p : Pen) : Type 0 where
  pub dx : l.dx ≡ pos d
  pub dy : pos_part l.dy ≡ 0
  pub dy' : neg_part l.dy ≡ e
  pub in_x : i + a ≡ d
  pub in_y : j + b ≡ e
  pub err : pos_part p.err + (i + 1) * e ≡ neg_part p.err + (j + 1) * d
  pub x : Ahead l.sx p.x l.x2 a
  pub y : Ahead l.sy p.y l.y2 b

-- The two tests of a round.
abbrev pub goes_x : Line → Pen → Bool
goes_x l p = leb_ℤ l.dy (p.err +ℤ p.err)

abbrev pub goes_y : Line → Pen → Bool
goes_y l p = leb_ℤ (p.err +ℤ p.err) l.dx

mul_mono : (m n k : ℕ) → m ≤ n → m * k ≤ n * k
mul_mono m n k h = let e : n ≡ m + (n - m) = omega arith in rw e (omega arith)

-- With x at its end the test for x fails.
pub goes_x-left :
    (l : Line) (d e i j a b : ℕ) (p : Pen)
    → IsAt l d e i j a b p
    → 0 < a + b
    → goes_x l p ≡ true
    → 0 < a
goes_x-left l d e i j zero b p h more goes =
    let at : i ≡ d = omega (arith, h.in_x) in
    let low = mul_mono (j + 1) e d (omega (arith, h.in_y)) in
    let err : pos_part p.err + (d + 1) * e ≡ neg_part p.err + (j + 1) * d = rw at at h.err in
    absurd (ground (arith, +ℤ_parts p.err p.err, low, err, h.dy, h.dy', h.in_y))
goes_x-left l d e i j (suc a) b p h more goes = omega arith

pub goes_y-left :
    (l : Line) (d e i j a b : ℕ) (p : Pen)
    → IsAt l d e i j a b p
    → 0 < a + b
    → goes_y l p ≡ true
    → 0 < b
goes_y-left l d e i j a zero p h more goes =
    let at : j ≡ e = omega (arith, h.in_y) in
    let low = mul_mono (i + 1) d e (omega (arith, h.in_x)) in
    let err : pos_part p.err + (i + 1) * e ≡ neg_part p.err + (e + 1) * d = rw at at h.err in
    let goes' : leb_ℤ (p.err +ℤ p.err) (pos d) ≡ true = rw h.dx at goes in
    absurd (ground (arith, +ℤ_parts p.err p.err, low, err, h.in_x))
goes_y-left l d e i j a (suc b) p h more goes = omega arith

-- One of the tests holds.
pub goes-somewhere :
    (l : Line) (d e i j a b : ℕ) (p : Pen)
    → IsAt l d e i j a b p
    → goes_x l p ≡ false
    → goes_y l p ≡ true
goes-somewhere l d e i j a b p h stays = rw h.dx (ground (arith, +ℤ_parts p.err p.err, h.dy, h.dy'))

abbrev pub right : Line → Pen → Pen
right l p = record p { err = p.err +ℤ l.dy; x = p.x +ℤ l.sx }

abbrev pub down : Line → Pen → Pen
down l p = record p { err = p.err +ℤ l.dx; y = p.y +ℤ l.sy }

pub right-IsAt :
    (l : Line) (d e i j a b : ℕ) (p : Pen)
    → IsAt l d e i j (suc a) b p
    → IsAt l d e (suc i) j a b (right l p)
right-IsAt l d e i j a b p h = record {
  dx = h.dx;
  dy = h.dy;
  dy' = h.dy';
  in_x = omega (arith, h.in_x);
  in_y = h.in_y;
  err = omega (arith, +ℤ_parts p.err l.dy, h.err, h.dy, h.dy');
  x = Ahead-step l.sx p.x l.x2 a h.x;
  y = h.y;
}

pub down-IsAt :
    (l : Line) (d e i j a b : ℕ) (p : Pen)
    → IsAt l d e i j a (suc b) p
    → IsAt l d e i (suc j) a b (down l p)
down-IsAt l d e i j a b p h = record {
  dx = h.dx;
  dy = h.dy;
  dy' = h.dy';
  in_x = h.in_x;
  in_y = omega (arith, h.in_y);
  err =
      let right_parts : pos_part l.dx ≡ d = ap pos_part h.dx in
      let left_parts : neg_part l.dx ≡ 0 = ap neg_part h.dx in
      omega (arith, +ℤ_parts p.err l.dx, h.err, right_parts, left_parts);
  x = h.x;
  y = Ahead-step l.sy p.y l.y2 b h.y;
}

-- Where the pen stands after a round, nearer to the end than it was.
pub record Nearer (l : Line) (d e a b : ℕ) (p : Pen) : Type 0 where
  pub i : ℕ
  pub j : ℕ
  pub a' : ℕ
  pub b' : ℕ
  pub less : a' + b' < a + b
  pub at : IsAt l d e i j a' b' p

step-both :
    (l : Line) (p : Pen) → goes_x l p ≡ true → goes_y l p ≡ true → step l p ≡ down l (right l p)
unfolding step step_x step_y
step-both l p hx hy = rw (hx, hy) refl

pub step-right :
    (l : Line) (p : Pen) → goes_x l p ≡ true → goes_y l p ≡ false → step l p ≡ right l p
unfolding step step_x step_y
step-right l p hx hy = rw (hx, hy) refl

pub step-down : (l : Line) (p : Pen) → goes_x l p ≡ false → goes_y l p ≡ true → step l p ≡ down l p
unfolding step step_x step_y
step-down l p hx hy = rw (hx, hy) refl

pub step-Nearer :
    (l : Line) (d e i j a b : ℕ) (p : Pen)
    → IsAt l d e i j a b p
    → 0 < a + b
    → Nearer l d e a b (step l p)
step-Nearer l d e i j a b p h more = elim (Bool-cases (goes_x l p)) [
  | inl hx ↦ elim (Bool-cases (goes_y l p)) [
    | inl hy ↦
        both a b h (goes_x-left l d e i j a b p h more hx) (goes_y-left l d e i j a b p h more hy)
          hx hy
    | inr hy ↦ only_right a h (goes_x-left l d e i j a b p h more hx) hx hy
  ]
  | inr hx ↦
      let hy = goes-somewhere l d e i j a b p h hx in
      only_down b h (goes_y-left l d e i j a b p h more hy) hx hy
]
  where
    both :
        (a b : ℕ)
        → IsAt l d e i j a b p
        → 0 < a
        → 0 < b
        → goes_x l p ≡ true
        → goes_y l p ≡ true
        → Nearer l d e a b (step l p)
    both zero b h la lb hx hy = absurd (omega arith)
    both (suc a) zero h la lb hx hy = absurd (omega arith)
    both (suc a) (suc b) h la lb hx hy = rw (step-both l p hx hy) (record {
      i = suc i;
      j = suc j;
      a' = a;
      b' = b;
      less = omega arith;
      at = down-IsAt l d e (suc i) j a b (right l p) (right-IsAt l d e i j a (suc b) p h);
    })

    only_right :
        (a : ℕ)
        → IsAt l d e i j a b p
        → 0 < a
        → goes_x l p ≡ true
        → goes_y l p ≡ false
        → Nearer l d e a b (step l p)
    only_right zero h la hx hy = absurd (omega arith)
    only_right (suc a) h la hx hy = rw (step-right l p hx hy) (record {
      i = suc i;
      j = j;
      a' = a;
      b' = b;
      less = omega arith;
      at = right-IsAt l d e i j a b p h;
    })

    only_down :
        (b : ℕ)
        → IsAt l d e i j a b p
        → 0 < b
        → goes_x l p ≡ false
        → goes_y l p ≡ true
        → Nearer l d e a b (step l p)
    only_down zero h lb hx hy = absurd (omega arith)
    only_down (suc b) h lb hx hy = rw (step-down l p hx hy) (record {
      i = i;
      j = suc j;
      a' = a;
      b' = b;
      less = omega arith;
      at = down-IsAt l d e i j a b p h;
    })
