-- ===== src/Graphics/Line.antt =====
-- draw_line of library.c: Bresenham's line, from one point to another.
pub mod Steps
pub mod Reach
pub mod Straight
use operating_system_impleme.Prelude.{
  Bool, Option, eqb_ℤ, if◌then◌else◌, is_negative, leb_ℤ, ltb_ℤ, minus_one, none, pos, some, suc,
  zero, ℕ, ℤ, ◌&&◌, ◌+ℤ◌, ◌-ℤ◌,
}
use operating_system_impleme.Graphics.Screen.{Buffer, Screen, draw_pixel}

-- `absoluteVal`
unfoldable pub absolute_val : ℤ → ℤ
unfolding ◌-ℤ◌
absolute_val n = if is_negative n then pos 0 -ℤ n else n

-- The end point, and the variables of draw_line that its loop does not change.
pub record Line : Type 0 where
  pub x2 : ℤ
  pub y2 : ℤ
  pub dx : ℤ
  pub dy : ℤ
  pub sx : ℤ
  pub sy : ℤ

-- The variables that the loop changes.
pub record Pen : Type 0 where
  pub x : ℤ
  pub y : ℤ
  pub err : ℤ

-- `if (e2 >= dy) { err += dy; x1 += sx; }`
unfoldable pub step_x : Line → ℤ → Pen → Pen
step_x l e2 p = if leb_ℤ l.dy e2 then record p { err = p.err +ℤ l.dy; x = p.x +ℤ l.sx } else p

-- `if (e2 <= dx) { err += dx; y1 += sy; }`
unfoldable pub step_y : Line → ℤ → Pen → Pen
step_y l e2 p = if leb_ℤ e2 l.dx then record p { err = p.err +ℤ l.dx; y = p.y +ℤ l.sy } else p

-- `e2 = 2*err`, and the two tests.
unfoldable pub step : Line → Pen → Pen
step l p = let e2 = p.err +ℤ p.err in step_y l e2 (step_x l e2 p)

unfoldable pub is_end : Line → Pen → Bool
is_end l p = eqb_ℤ p.x l.x2 && eqb_ℤ p.y l.y2

-- The loop, with what it does at each point as `plot`. None: the fuel is used up.
unfoldable pub line_loop {ℓ} : {A : Type ℓ} → (A → ℤ → ℤ → A) → ℕ → Line → A → Pen → Option A
line_loop plot zero l img p = none
line_loop plot (suc fuel) l img p =
    let rest = line_loop plot fuel l (plot img p.x p.y) (step l p) in
    if is_end l p then some (plot img p.x p.y) else rest

unfoldable pub sign : ℤ → ℤ → ℤ
sign a b = if ltb_ℤ a b then pos 1 else minus_one

-- The declarations at the top of draw_line.
unfoldable pub start_line : ℤ → ℤ → ℤ → ℤ → Line
start_line x1 y1 x2 y2 = record {
  x2 = x2;
  y2 = y2;
  dx = absolute_val (x2 -ℤ x1);
  dy = pos 0 -ℤ absolute_val (y2 -ℤ y1);
  sx = sign x1 x2;
  sy = sign y1 y2;
}

unfoldable pub start_pen : Line → ℤ → ℤ → Pen
start_pen l x1 y1 = record { x = x1; y = y1; err = l.dx +ℤ l.dy }

-- `draw_line`
unfoldable pub draw_line : ℕ → Screen → Buffer → ℤ → ℤ → ℤ → ℤ → ℕ → Option Buffer
draw_line fuel s img x1 y1 x2 y2 c =
    let l = start_line x1 y1 x2 y2 in
    line_loop (λ img' x y. draw_pixel s img' x y c) fuel l img (start_pen l x1 y1)
