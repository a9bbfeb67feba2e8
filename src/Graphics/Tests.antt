-- ===== src/Graphics/Tests.antt =====
-- A line and a curve on a small screen.
use operating_system_impleme.Prelude.{
  List, [], arith, false, inl, inr, pos, refl, some, true, ℕ, ◌*◌, ◌+◌, ◌-ℤ◌, ◌-◌, ◌<◌, ◌^◌, ◌∷◌,
  ◌≡◌,
}
use operating_system_impleme.Graphics.Programs.{Drive, Show, curve_main, driver_main, key_n, key_q}
use operating_system_impleme.Graphics.Programs.Curves.{ShowsCurve, curve_main_shows, presses, quits}
use operating_system_impleme.Graphics.Programs.Driver.{driver_main_ends, stops}
use operating_system_impleme.Graphics.Line.Straight.{draw_line-straight}
use operating_system_impleme.Graphics.Screen.{
  Buffer, Screen, draw_pixel, draw_pixel-overrun, is_off_screen, pixel_index, pixels,
}
use operating_system_impleme.Graphics.Line.{draw_line}
use operating_system_impleme.Graphics.Line.Reach.{InBox, draw_line-ends, gap}
use operating_system_impleme.Graphics.Hilbert.{Turtle, hilbert_recurse}
use operating_system_impleme.Graphics.Hilbert.Path.{Moved}
use operating_system_impleme.Graphics.Hilbert.Curve.{hilbert_recurse-Moved}

abbrev small : Screen
small = record { y_length = 10; bit_depth = 40 }

abbrev black : Buffer
black j = 0

near : gap (pos 0) (pos 3) + gap (pos 0) (pos 2) < 6
unfolding ◌-ℤ◌
near = omega arith

draw_line-ends_example :
    (img' : Buffer) × (draw_line 6 small black (pos 0) (pos 0) (pos 3) (pos 2) 7 ≡ some img')
    × (is_off_screen small (pos 3) (pos 2) ≡ false → img' (pixel_index small (pos 3) (pos 2)) ≡ 7)
    × ((k : ℕ) → ¬ InBox small (pos 0) (pos 0) (pos 3) (pos 2) k → img' k ≡ black k)
draw_line-ends_example = draw_line-ends 6 small black (pos 0) (pos 0) (pos 3) (pos 2) 7 near

draw_pixel-overrun_example : draw_pixel small black (pos 0) (pos 10) 7 (pixels small) ≡ 7
draw_pixel-overrun_example = draw_pixel-overrun small black 7 refl

abbrev turtle : Turtle
turtle = record { direction = 0; curr_x = pos 0; curr_y = pos 0; img = black }

hilbert_recurse-Moved_example :
    (t' : Turtle) × (hilbert_recurse 6 small 2 (pos 1) (pos 5) turtle ≡ some t')
    × Moved 0 (2 ^ 2 * 5 - 5) turtle t'
hilbert_recurse-Moved_example =
    hilbert_recurse-Moved 6 small 2 (pos 1) 5 turtle (inl refl) (inl refl) (omega arith)

-- `n`, another key, `q`
abbrev some_keys : List ℕ
some_keys = key_n ∷ 32 ∷ key_q ∷ []

curve_main_shows_example :
    (p : Show) × (curve_main 480 small black some_keys ≡ some p)
    × (p.over ≡ quits some_keys)
    × (p.over ≡ false → ShowsCurve 480 small (1 + presses some_keys) p.frame)
    × (p.over ≡ true → (j : ℕ) → j < pixels small → p.frame j ≡ 0)
curve_main_shows_example = curve_main_shows 480 small black some_keys (omega arith)

driver_main_ends_example :
    (d : Drive) × (driver_main 1041 small black some_keys ≡ some d)
    × (d.done ≡ stops 0 some_keys)
    × (d.done ≡ true → (j : ℕ) → j < pixels small → d.screen j ≡ 0)
driver_main_ends_example = driver_main_ends 1041 small black some_keys (omega arith)

across : gap (pos 1) (pos 5) + gap (pos 2) (pos 2) < 6
unfolding ◌-ℤ◌
across = omega arith

draw_line-straight_example :
    (img' : Buffer) × (draw_line 6 small black (pos 1) (pos 2) (pos 5) (pos 2) 7 ≡ some img')
    × ((k : ℕ) → InBox small (pos 1) (pos 2) (pos 5) (pos 2) k → img' k ≡ 7)
    × ((k : ℕ) → ¬ InBox small (pos 1) (pos 2) (pos 5) (pos 2) k → img' k ≡ black k)
draw_line-straight_example =
    draw_line-straight 6 small black (pos 1) (pos 2) (pos 5) (pos 2) 7 (inr refl) across
