-- ===== src/Graphics/Hilbert.antt =====
-- The Hilbert curve of hilbert.c: a turtle that draws lines into a buffer.
pub mod Path
pub mod Curve
use operating_system_impleme.Prelude.{
  Option, if◌then◌else◌, none, pos, pos_part, some, suc, zero, ℕ, ℤ, ◌%◌, ◌*ℤ◌, ◌+ℤ◌, ◌-ℤ◌, ◌/◌,
  ◌==◌, ◌^◌,
}
use operating_system_impleme.Graphics.Screen.{Buffer, Screen, rgb}
use operating_system_impleme.Graphics.Line.{draw_line}

-- The globals `direction`, `curr_x` and `curr_y`, and the buffer.
pub record Turtle : Type 0 where
  pub direction : ℕ
  pub curr_x : ℤ
  pub curr_y : ℤ
  pub img : Buffer

-- `turn_left`; with degrees from -360 on the sum is not negative.
unfoldable pub turn_left : ℤ → Turtle → Turtle
unfolding ◌+ℤ◌
turn_left degrees t = record t {
  direction = pos_part (pos t.direction +ℤ degrees +ℤ pos 360) % 360;
}

-- `new_x` and `new_y` of go_forward.
unfoldable pub new_x : ℤ → Turtle → ℤ
unfolding ◌+ℤ◌ ◌-ℤ◌
new_x distance t =
    if t.direction == 0
    then t.curr_x +ℤ distance
    else (if t.direction == 180 then t.curr_x -ℤ distance else t.curr_x)

unfoldable pub new_y : ℤ → Turtle → ℤ
unfolding ◌+ℤ◌ ◌-ℤ◌
new_y distance t =
    if t.direction == 90
    then t.curr_y +ℤ distance
    else (if t.direction == 270 then t.curr_y -ℤ distance else t.curr_y)

-- `go_forward`, with `fuel` for draw_line.
unfoldable pub go_forward : ℕ → Screen → ℤ → Turtle → Option Turtle
go_forward fuel s distance t =
    let x = new_x distance t in
    let y = new_y distance t in
    elim (draw_line fuel s t.img t.curr_x t.curr_y x y (rgb 31 0 0)) [
      | none ↦ none
      | some img' ↦ some (record t { curr_x = x; curr_y = y; img = img' })
    ]

abbrev pub Move : Type 0
Move = Turtle → Option Turtle

infixr 40 ◌>=>◌
-- One move after another.
unfoldable pub ◌>=>◌ : Move → Move → Move
(f >=> g) t = elim (f t) [ none ↦ none | some t' ↦ g t' ]

abbrev pub turn : ℤ → Move
turn degrees t = some (turn_left degrees t)

-- `parity * 90` and `-parity * 90`
abbrev pub quarter : ℤ → ℤ
quarter parity = parity *ℤ pos 90

abbrev pub negate : ℤ → ℤ
negate z = pos 0 -ℤ z

-- `hilbert_recurse`
unfoldable pub hilbert_recurse : ℕ → Screen → ℕ → ℤ → ℤ → Move
hilbert_recurse fuel s zero parity dist t = some t
hilbert_recurse fuel s (suc n) parity dist t =
    (turn (quarter parity)
        >=> hilbert_recurse fuel s n (negate parity) dist
        >=> go_forward fuel s dist
        >=> turn (quarter (negate parity))
        >=> hilbert_recurse fuel s n parity dist
        >=> go_forward fuel s dist
        >=> hilbert_recurse fuel s n parity dist
        >=> turn (quarter (negate parity))
        >=> go_forward fuel s dist
        >=> hilbert_recurse fuel s n (negate parity) dist
        >=> turn (quarter parity))
      t

-- `hilbert`, for n up to 30, where `1 << n` is an int.
unfoldable pub hilbert : ℕ → Screen → ℕ → ℤ → Move
hilbert fuel s n parity = hilbert_recurse fuel s n parity (pos (479 / 2 ^ n))
