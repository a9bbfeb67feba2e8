-- ===== src/Graphics/Line/Straight.antt =====
-- Lines of draw_line along one of the axes, as the turtle of hilbert.c draws them.
use operating_system_impleme.Prelude.{
  -ℤ_parts, Bool-cases, ap, arith, eq_of_parts, false, inl, inr, ltb_ℤ, neg_part, pos_part, refl,
  some, suc, sym, true, zero, ℕ, ℤ, ◌+◌, ◌-ℤ◌, ◌<◌, ◌==◌, ◌∙◌, ◌≡◌, ◌≤◌, ◌⊎◌,
}
use operating_system_impleme.Graphics.Screen.{
  Buffer, Screen, draw_pixel, is_off_screen, pixel_index,
}
use operating_system_impleme.Graphics.Line.{
  Line, Pen, draw_line, line_loop, sign, start_line, start_pen, step,
}
use operating_system_impleme.Graphics.Line.Steps.{
  Ahead, IsAt, down, down-IsAt, downward, goes-somewhere, goes_x, goes_x-left, goes_y, goes_y-left,
  right-IsAt, step-Nearer, step-down, step-right, upward,
}
use operating_system_impleme.Graphics.Line.Reach.{
  Between, InBox, draw_line-ends, draw_pixel_self, end-left, gap, line_loop-ends, one_part,
  start-IsAt,
}

-- The steps left to the end of the line and the steps left from a point on it lie on one axis.
abbrev pub IsAlong : ℕ → ℕ → ℕ → ℕ → Type 0
IsAlong a b ta tb = ((a ≡ 0) × (ta ≡ 0)) ⊎ ((b ≡ 0) × (tb ≡ 0))

-- A round on a straight line makes one step.
record OneStep (l : Line) (d e a b ta tb : ℕ) (p : Pen) : Type 0 where
  i : ℕ
  j : ℕ
  a' : ℕ
  b' : ℕ
  one : suc (a' + b') ≡ a + b
  at : IsAt l d e i j a' b' (step l p)
  along : IsAlong a' b' ta tb

step_up :
    (l : Line) (d e i j b ta tb : ℕ) (p : Pen)
    → IsAt l d e i j 0 (suc b) p
    → ta ≡ 0
    → OneStep l d e 0 (suc b) ta tb p
step_up l d e i j b ta tb p h z =
    let stays : goes_x l p ≡ false = elim (Bool-cases (goes_x l p)) [
      | inl goes ↦ absurd (omega (arith, goes_x-left l d e i j 0 (suc b) p h (omega arith) goes))
      | inr not_x ↦ not_x
    ] in
    let goes = goes-somewhere l d e i j 0 (suc b) p h stays in
    record {
      i = i;
      j = suc j;
      a' = 0;
      b' = b;
      one = omega arith;
      at = rw (step-down l p stays goes) (down-IsAt l d e i j 0 b p h);
      along = inl (refl, z);
    }

step_across :
    (l : Line) (d e i j a ta tb : ℕ) (p : Pen)
    → IsAt l d e i j (suc a) 0 p
    → tb ≡ 0
    → OneStep l d e (suc a) 0 ta tb p
step_across l d e i j a ta tb p h z =
    let stays : goes_y l p ≡ false = elim (Bool-cases (goes_y l p)) [
      | inl goes ↦ absurd (omega (arith, goes_y-left l d e i j (suc a) 0 p h (omega arith) goes))
      | inr not_y ↦ not_y
    ] in
    let goes : goes_x l p ≡ true = elim (Bool-cases (goes_x l p)) [
      | inl yes_x ↦ yes_x
      | inr not_x ↦
          absurd (ground (arith, sym stays ∙ goes-somewhere l d e i j (suc a) 0 p h not_x))
    ] in
    record {
      i = suc i;
      j = j;
      a' = a;
      b' = 0;
      one = omega arith;
      at = rw (step-right l p goes stays) (right-IsAt l d e i j a 0 p h);
      along = inr (refl, z);
    }

step-OneStep :
    (l : Line) (d e i j a b ta tb : ℕ) (p : Pen)
    → IsAt l d e i j a b p
    → 0 < a + b
    → IsAlong a b ta tb
    → OneStep l d e a b ta tb p
step-OneStep l d e i j zero zero ta tb p h more s = absurd (omega (arith, more))
step-OneStep l d e i j zero (suc b) ta tb p h more (inl (e0, z)) = step_up l d e i j b ta tb p h z
step-OneStep l d e i j zero (suc b) ta tb p h more (inr (e0, z)) = absurd (omega (arith, e0))
step-OneStep l d e i j (suc a) b ta tb p h more (inl (e0, z)) = absurd (omega (arith, e0))
step-OneStep l d e i j (suc a) zero ta tb p h more (inr (e0, z)) =
    step_across l d e i j a ta tb p h z
step-OneStep l d e i j (suc a) (suc b) ta tb p h more (inr (e0, z)) = absurd (omega (arith, e0))

Ahead-same : (s v v' w : ℤ) (a : ℕ) → Ahead s v w a → Ahead s v' w a → v ≡ v'
Ahead-same s v v' w a (upward e h) (upward e' h') = eq_of_parts v v' (omega arith)
Ahead-same s v v' w a (upward e h) (downward e' h') = absurd (ground (arith, sym e ∙ e'))
Ahead-same s v v' w a (downward e h) (upward e' h') = absurd (ground (arith, sym e ∙ e'))
Ahead-same s v v' w a (downward e h) (downward e' h') = eq_of_parts v v' (omega arith)

same_steps : (a b ta tb : ℕ) → IsAlong a b ta tb → a + b ≡ ta + tb → (a ≡ ta) × (b ≡ tb)
same_steps a b ta tb (inl (z, z')) e = (omega arith, omega arith)
same_steps a b ta tb (inr (z, z')) e = (omega arith, omega arith)

draw_pixel_keeps :
    (s : Screen) (img : Buffer) (x y : ℤ) (c k : ℕ) → img k ≡ c → draw_pixel s img x y c k ≡ c
unfolding draw_pixel
draw_pixel_keeps s img x y c k h = ground arith

module _ (s : Screen) (c : ℕ) (l : Line) (d e : ℕ) (x y : ℤ) (ta tb : ℕ) (hx : Ahead l.sx x l.x2 ta)
    (hy : Ahead l.sy y l.y2 tb) (on : is_off_screen s x y ≡ false) where
  abbrev plot : Buffer → ℤ → ℤ → Buffer
  plot img x' y' = draw_pixel s img x' y' c

  abbrev k : ℕ
  k = pixel_index s x y

  -- A colour once drawn stays to the end of the loop.
  stays_drawn :
      (fuel i j a b : ℕ) (img : Buffer) (p : Pen)
      → IsAt l d e i j a b p
      → a + b < fuel
      → img k ≡ c
      → (img' : Buffer) × (line_loop plot fuel l img p ≡ some img') × (img' k ≡ c)
  stays_drawn fuel i j a b img p h low drawn =
      let (img', kept, ends) =
        line_loop-ends plot l d e (λ img'. img' k ≡ c)
          (λ img' x' y' a' b' la lb ax ay q. draw_pixel_keeps s img' x' y' c k q) fuel i j a b img p
          h low drawn in
      (plot img' l.x2 l.y2, ends, kept)

  -- The loop comes to every point that lies ahead on a straight line.
  comes_to :
      (fuel i j a b : ℕ) (img : Buffer) (p : Pen)
      → IsAt l d e i j a b p
      → a + b < fuel
      → ta + tb ≤ a + b
      → IsAlong a b ta tb
      → (img' : Buffer) × (line_loop plot fuel l img p ≡ some img') × (img' k ≡ c)
  unfolding line_loop
  comes_to zero i j a b img p h low ahead along = absurd (omega (arith, low))
  comes_to (suc fuel) i j a b img p h low ahead along = elim (Bool-cases ((a + b) == (ta + tb))) [
    | inl here ↦
        let (same_a, same_b) = same_steps a b ta tb along (ground arith) in
        let at_x = Ahead-same l.sx p.x x l.x2 ta (rw same_a at h.x) hx in
        let at_y = Ahead-same l.sy p.y y l.y2 tb (rw same_b at h.y) hy in
        let drawn : plot img p.x p.y k ≡ c = rw (at_x, at_y) (draw_pixel_self s img x y c on) in
        elim (Bool-cases (a + b == 0)) [
          | inl done ↦ (plot img p.x p.y, rw (end-left l d e i j a b p h ∙ done) refl, drawn)
          | inr more ↦
              let n = step-Nearer l d e i j a b p h (ground arith) in
              let (img', run, kept) =
                stays_drawn fuel n.i n.j n.a' n.b' (plot img p.x p.y) (step l p) n.at
                  (omega (arith, low, n.less)) drawn in
              (img', rw (end-left l d e i j a b p h ∙ more) run, kept)
        ]
    | inr later ↦
        let more : 0 < a + b = ground arith in
        let n = step-OneStep l d e i j a b ta tb p h more along in
        let nearer : ta + tb ≤ n.a' + n.b' = ground (arith, n.one, ahead, later) in
        let (img', run, drawn) =
          comes_to fuel n.i n.j n.a' n.b' (plot img p.x p.y) (step l p) n.at
            (omega (arith, low, n.one)) nearer n.along in
        let going : (a + b == 0) ≡ false = ground (arith, more) in
        (img', rw (end-left l d e i j a b p h ∙ going) run, drawn)
  ]

some_injective : (a b : Buffer) → some a ≡ some b → a ≡ b
some_injective a b e = cc

Between-Ahead : (v w z : ℤ) → Between v w z → (t : ℕ) × Ahead (sign v w) z w t × (t ≤ gap v w)
unfolding sign
Between-Ahead v w z h =
    let far = -ℤ_parts w z in
    let wide = -ℤ_parts w v in
    let one = one_part (w -ℤ z) in
    let one' = one_part (w -ℤ v) in
    elim (Bool-cases (ltb_ℤ v w)) [
      | inl up ↦ (
        gap z w,
        upward (rw up refl) (ground (arith, far, one)),
        ground (arith, far, wide, one, one'),
      )
      | inr down ↦ (
        gap z w,
        downward (rw down refl) (ground (arith, far, one)),
        ground (arith, far, wide, one, one'),
      )
    ]

gap_same : (v w : ℤ) → v ≡ w → gap v w ≡ 0
gap_same v w e =
    let one = one_part (w -ℤ v) in ground (arith, -ℤ_parts w v, ap pos_part e, ap neg_part e, one)

on_axis :
    (x1 y1 x2 y2 : ℤ) (ta tb : ℕ)
    → (x1 ≡ x2) ⊎ (y1 ≡ y2)
    → ta ≤ gap x1 x2
    → tb ≤ gap y1 y2
    → IsAlong (gap x1 x2) (gap y1 y2) ta tb
on_axis x1 y1 x2 y2 ta tb (inl e) la lb = let z = gap_same x1 x2 e in inl (z, omega (arith, z, la))
on_axis x1 y1 x2 y2 ta tb (inr e) la lb = let z = gap_same y1 y2 e in inr (z, omega (arith, z, lb))

-- One point of the line.
colours_point :
    (fuel : ℕ) (s : Screen) (img : Buffer) (x1 y1 x2 y2 : ℤ) (c : ℕ)
    → (x1 ≡ x2) ⊎ (y1 ≡ y2)
    → gap x1 x2 + gap y1 y2 < fuel
    → (x y : ℤ) → Between x1 x2 x
    → Between y1 y2 y
    → is_off_screen s x y ≡ false
    → (img' : Buffer) × (draw_line fuel s img x1 y1 x2 y2 c ≡ some img')
      × (img' (pixel_index s x y) ≡ c)
unfolding draw_line start_line
colours_point fuel s img x1 y1 x2 y2 c axis enough x y bx by on =
    let (ta, hx, la) = Between-Ahead x1 x2 x bx in
    let (tb, hy, lb) = Between-Ahead y1 y2 y by in
    let l = start_line x1 y1 x2 y2 in
    comes_to s c l (gap x1 x2) (gap y1 y2) x y ta tb hx hy on fuel 0 0 (gap x1 x2) (gap y1 y2) img
      (start_pen l x1 y1) (start-IsAt x1 y1 x2 y2) enough (omega (arith, la, lb))
      (on_axis x1 y1 x2 y2 ta tb axis la lb)

-- A line along an axis: draw_line, with fuel for more rounds than the ends lie apart, gives the colour
-- to every point between the two ends that draw_pixel lets pass, and changes no other place.
pub draw_line-straight :
    (fuel : ℕ) (s : Screen) (img : Buffer) (x1 y1 x2 y2 : ℤ) (c : ℕ)
    → (x1 ≡ x2) ⊎ (y1 ≡ y2)
    → gap x1 x2 + gap y1 y2 < fuel
    → (img' : Buffer) × (draw_line fuel s img x1 y1 x2 y2 c ≡ some img')
      × ((k : ℕ) → InBox s x1 y1 x2 y2 k → img' k ≡ c)
      × ((k : ℕ) → ¬ InBox s x1 y1 x2 y2 k → img' k ≡ img k)
draw_line-straight fuel s img x1 y1 x2 y2 c axis enough =
    let (img', run, ends, kept) = draw_line-ends fuel s img x1 y1 x2 y2 c enough in
    (img', run, coloured img' run, kept)
  where
    coloured :
        (img' : Buffer)
        → draw_line fuel s img x1 y1 x2 y2 c ≡ some img'
        → (k : ℕ) → InBox s x1 y1 x2 y2 k
        → img' k ≡ c
    coloured img' run k (x, y, bx, by, on, at) =
        let (img'', run', drawn) =
          colours_point fuel s img x1 y1 x2 y2 c axis enough x y bx by on in
        let same : img' ≡ img'' = some_injective img' img'' (sym run ∙ run') in rw (same, at) drawn
