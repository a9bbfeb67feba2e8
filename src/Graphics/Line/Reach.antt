-- ===== src/Graphics/Line/Reach.antt =====
-- The whole loop of draw_line in library.c, from its declarations to its break.
use operating_system_impleme.Prelude.{
  +ℤ_parts, -ℤ_parts, Bool-cases, ap, arith, eq_of_parts, eqb_ℤ, false, inl, inr, ltb_ℤ, neg_part,
  negsuc, pos, pos_part, refl, some, suc, sym, zero, ℕ, ℤ, ◌+◌, ◌-ℤ◌, ◌<◌, ◌==◌, ◌∙◌, ◌≡◌, ◌≢◌,
  ◌≤ℤ◌, ◌≤◌, ◌⊎◌,
}
use operating_system_impleme.Graphics.Line.{
  Line, Pen, absolute_val, draw_line, is_end, line_loop, sign, start_line, start_pen, step,
}
use operating_system_impleme.Graphics.Line.Steps.{Ahead, IsAt, down, downward, step-Nearer, upward}
use operating_system_impleme.Graphics.Screen.{
  Buffer, Screen, draw_pixel, is_off_screen, pixel_index,
}

-- A coordinate on the way from one to the other.
abbrev pub Between : ℤ → ℤ → ℤ → Type 0
Between v w z = ((v ≤ℤ z) × (z ≤ℤ w)) ⊎ ((w ≤ℤ z) × (z ≤ℤ v))

Ahead-Between : (s v w z : ℤ) (a d : ℕ) → Ahead s v w d → Ahead s z w a → a ≤ d → Between v w z
Ahead-Between s v w z a d (upward e h) (upward e' h') low = inl (omega arith, omega arith)
Ahead-Between s v w z a d (upward e h) (downward e' h') low = absurd (ground (arith, sym e ∙ e'))
Ahead-Between s v w z a d (downward e h) (upward e' h') low = absurd (ground (arith, sym e ∙ e'))
Ahead-Between s v w z a d (downward e h) (downward e' h') low = inr (omega arith, omega arith)

Ahead-end : (s v w : ℤ) (a : ℕ) → Ahead s v w a → eqb_ℤ v w ≡ (a == 0)
Ahead-end s v w a (upward e h) = ground arith
Ahead-end s v w a (downward e h) = ground arith

pub Ahead-none : (s v w : ℤ) (a : ℕ) → Ahead s v w a → a ≡ 0 → v ≡ w
Ahead-none s v w a (upward e h) z = eq_of_parts v w (omega arith)
Ahead-none s v w a (downward e h) z = eq_of_parts v w (omega arith)

-- The pen is at the end point just when no steps are left.
pub end-left :
    (l : Line) (d e i j a b : ℕ) (p : Pen) → IsAt l d e i j a b p → is_end l p ≡ (a + b == 0)
unfolding is_end
end-left l d e i j a b p h =
    rw (Ahead-end l.sx p.x l.x2 a h.x, Ahead-end l.sy p.y l.y2 b h.y) (ground arith)

-- The loop, in any state that the plots act on: with fuel for the steps that are left it ends with a
-- plot of the end point, and keeps what every plot in the box keeps.
module _ {ℓ κ} {A : Type ℓ} (plot : A → ℤ → ℤ → A) (l : Line) (d e : ℕ) (P : A → Type κ)
    (keeps : (s : A) (x y : ℤ) (a b : ℕ)
      → a ≤ d
      → b ≤ e
      → Ahead l.sx x l.x2 a
      → Ahead l.sy y l.y2 b
      → P s
      → P (plot s x y)) where
  pub line_loop-ends :
      (fuel i j a b : ℕ) (s : A) (p : Pen)
      → IsAt l d e i j a b p
      → a + b < fuel
      → P s
      → (s' : A) × P (plot s' l.x2 l.y2) × (line_loop plot fuel l s p ≡ some (plot s' l.x2 l.y2))
  unfolding line_loop
  line_loop-ends zero i j a b s p h low ps = absurd (omega arith)
  line_loop-ends (suc fuel) i j a b s p h low ps =
      let after : P (plot s p.x p.y) =
        keeps s p.x p.y a b (omega (arith, h.in_x)) (omega (arith, h.in_y)) h.x h.y ps in
      let test = end-left l d e i j a b p h in
      elim (Bool-cases (a + b == 0)) [
        | inl done ↦
            let at_x = Ahead-none l.sx p.x l.x2 a h.x (ground arith) in
            let at_y = Ahead-none l.sy p.y l.y2 b h.y (ground arith) in
            (s, rw (at_x, at_y) at after, rw (test ∙ done, at_x, at_y) refl)
        | inr more ↦
            let n = step-Nearer l d e i j a b p h (ground arith) in
            let (s', ps', ends) =
              line_loop-ends fuel n.i n.j n.a' n.b' (plot s p.x p.y) (step l p) n.at
                (omega (arith, n.less)) after in
            (s', ps', rw (test ∙ more) ends)
      ]

-- How far apart two coordinates are.
abbrev pub gap : ℤ → ℤ → ℕ
gap v w = pos_part (w -ℤ v) + neg_part (w -ℤ v)

absolute_val-parts : (n : ℤ) → absolute_val n ≡ pos (pos_part n + neg_part n)
unfolding absolute_val ◌-ℤ◌
absolute_val-parts (pos n) = ap pos (omega arith)
absolute_val-parts (negsuc n) = ground arith

pub one_part : (z : ℤ) → (pos_part z ≡ 0) ⊎ (neg_part z ≡ 0)
one_part (pos n) = inr refl
one_part (negsuc n) = inl refl

sign-Ahead : (v w : ℤ) → Ahead (sign v w) v w (gap v w)
unfolding sign
sign-Ahead v w = elim (Bool-cases (ltb_ℤ v w)) [
  | inl up ↦ upward (rw up refl) (ground (arith, -ℤ_parts w v, one_part (w -ℤ v)))
  | inr down ↦ downward (rw down refl) (ground (arith, -ℤ_parts w v, one_part (w -ℤ v)))
]

pub start-IsAt :
    (x1 y1 x2 y2 : ℤ)
    → IsAt
        (start_line x1 y1 x2 y2)
        (gap x1 x2)
        (gap y1 y2)
        0
        0
        (gap x1 x2)
        (gap y1 y2)
        (start_pen (start_line x1 y1 x2 y2) x1 y1)
unfolding start_line start_pen
start-IsAt x1 y1 x2 y2 =
    let wide = absolute_val-parts (x2 -ℤ x1) in
    let high = absolute_val-parts (y2 -ℤ y1) in
    let dy : pos 0 -ℤ absolute_val (y2 -ℤ y1) ≡ pos 0 -ℤ pos (gap y1 y2) =
      ap (λ z. pos 0 -ℤ z) high in
    let parts = -ℤ_parts (pos 0) (pos (gap y1 y2)) in
    let one = one_part (pos 0 -ℤ pos (gap y1 y2)) in
    record {
      dx = wide;
      dy = ap pos_part dy ∙ ground arith;
      dy' = ap neg_part dy ∙ ground arith;
      in_x = omega arith;
      in_y = omega arith;
      err = rw (wide, dy) (ground (arith, +ℤ_parts (pos (gap x1 x2)) (pos 0 -ℤ pos (gap y1 y2))));
      x = sign-Ahead x1 x2;
      y = sign-Ahead y1 y2;
    }

-- The indices of the buffer that a plot in the box of the two ends may write.
abbrev pub InBox : Screen → ℤ → ℤ → ℤ → ℤ → ℕ → Type 0
InBox s x1 y1 x2 y2 k =
    (x : ℤ) × (y : ℤ) × Between x1 x2 x
    × Between y1 y2 y
    × (is_off_screen s x y ≡ false)
    × (k ≡ pixel_index s x y)

pub draw_pixel_other :
    (s : Screen) (img : Buffer) (x y : ℤ) (c k : ℕ)
    → (is_off_screen s x y ≡ false → k ≢ pixel_index s x y)
    → draw_pixel s img x y c k ≡ img k
unfolding draw_pixel
draw_pixel_other s img x y c k other = ground arith

pub draw_pixel_self :
    (s : Screen) (img : Buffer) (x y : ℤ) (c : ℕ)
    → is_off_screen s x y ≡ false
    → draw_pixel s img x y c (pixel_index s x y) ≡ c
unfolding draw_pixel
draw_pixel_self s img x y c on = ground arith

-- draw_line ends, with at most as many rounds as the ends lie apart in both coordinates, and one:
-- the end point, if it is on the screen, has the colour, and outside the box of the two ends the
-- buffer is as it was.
pub draw_line-ends :
    (fuel : ℕ) (s : Screen) (img : Buffer) (x1 y1 x2 y2 : ℤ) (c : ℕ)
    → gap x1 x2 + gap y1 y2 < fuel
    → (img' : Buffer) × (draw_line fuel s img x1 y1 x2 y2 c ≡ some img')
      × (is_off_screen s x2 y2 ≡ false → img' (pixel_index s x2 y2) ≡ c)
      × ((k : ℕ) → ¬ InBox s x1 y1 x2 y2 k → img' k ≡ img k)
unfolding draw_line start_line start_pen
draw_line-ends fuel s img x1 y1 x2 y2 c enough =
    let plot : Buffer → ℤ → ℤ → Buffer = λ img' x y. draw_pixel s img' x y c in
    let l = start_line x1 y1 x2 y2 in
    let start = start-IsAt x1 y1 x2 y2 in
    let (img', kept, ends) =
      line_loop-ends plot l (gap x1 x2) (gap y1 y2)
        (λ img'. (k : ℕ) → ¬ InBox s x1 y1 x2 y2 k → img' k ≡ img k)
        (λ img' x y a b la lb hx hy kept k out.
          draw_pixel_other s img' x y c k (λ on e. out (
            x,
            y,
            Ahead-Between l.sx x1 x2 x a (gap x1 x2) start.x hx la,
            Ahead-Between l.sy y1 y2 y b (gap y1 y2) start.y hy lb,
            on,
            e,
          ))
          ∙ kept k out)
        fuel 0 0 (gap x1 x2) (gap y1 y2) img (start_pen l x1 y1) start enough (λ k out. refl) in
    (plot img' x2 y2, ends, draw_pixel_self s img' x2 y2 c, kept)
