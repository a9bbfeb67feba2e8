-- ===== src/Graphics/Programs.antt =====
-- The programs of "Graphic Library": main of driver.c and main of hilbert.c, as functions of the keys
-- that getkey reads, by their codes. When the keys run out the program still waits for one. The mmap of
-- create_buffer gives zeroed memory; init_graphics only asks for the screen.
pub mod Curves
pub mod Driver
use operating_system_impleme.Prelude.{
  Bool, List, Option, [], false, if◌then◌else◌, none, pos, some, true, ℕ, ◌+◌, ◌==◌, ◌∷◌,
}
use operating_system_impleme.Graphics.Screen.{Buffer, Screen, blit, clear_screen, rgb}
use operating_system_impleme.Graphics.Line.{draw_line}
use operating_system_impleme.Graphics.Hilbert.{Turtle, hilbert}

-- `'q'` and `'n'`
abbrev pub key_q : ℕ
key_q = 113

abbrev pub key_n : ℕ
key_n = 110

abbrev pub create_buffer : Buffer
create_buffer j = 0

-- A program between two keys: its turtle, which has the offscreen buffer, its counter, what the
-- framebuffer shows, and whether it has left its loop and called exit_graphics.
pub record Show : Type 0 where
  pub turtle : Turtle
  pub n : ℕ
  pub frame : Buffer
  pub over : Bool

-- `exit_graphics`, as far as pixels go.
abbrev pub exit_graphics : Screen → Show → Show
exit_graphics s p = record p { frame = clear_screen s p.frame; over = true }

-- What driver.c keeps between two keys.
pub record Drive : Type 0 where
  pub img : Buffer
  pub count : ℕ
  pub screen : Buffer
  pub done : Bool

-- The globals of hilbert.c at the start, with the new buffer.
abbrev pub new_turtle : Turtle
new_turtle = record { direction = 0; curr_x = pos 0; curr_y = pos 0; img = create_buffer }

module _ (fuel : ℕ) (s : Screen) where
  -- `hilbert(buf, n, +1); blit(buf);`
  unfoldable pub draw_curve : ℕ → Turtle → Buffer → Option Show
  draw_curve n t frame = elim (hilbert fuel s n (pos 1) t) [
    | none ↦ none
    | some t' ↦ some (record { turtle = t'; n = n; frame = blit s t'.img frame; over = false })
  ]

  -- `curr_x = 0; curr_y = 0;`
  abbrev pub to_origin : Turtle → Turtle
  to_origin t = record t { curr_x = pos 0; curr_y = pos 0 }

  -- One round of the loop of hilbert.c.
  unfoldable pub curve_round : ℕ → Show → Option Show
  curve_round key p =
      let t = to_origin p.turtle in
      if key == key_q
      then some (exit_graphics s (record p { turtle = t }))
      else if key == key_n
      then draw_curve (p.n + 1) (record t { img = clear_screen s t.img }) p.frame
      else some (record p { turtle = t })

  unfoldable pub curve_loop : List ℕ → Show → Option Show
  curve_loop [] p = some p
  curve_loop (key ∷ keys) p = elim (curve_round key p) [
    | none ↦ none
    | some p' ↦ let rest = curve_loop keys p' in if p'.over then some p' else rest
  ]

  -- main of hilbert.c, with what the framebuffer showed before.
  unfoldable pub curve_main : Buffer → List ℕ → Option Show
  curve_main frame keys = elim (draw_curve 1 new_turtle frame) [
    | none ↦ none
    | some p ↦ curve_loop keys p
  ]

  -- The line that driver.c draws when `n` has become 1, 2 or 3.
  unfoldable pub driver_line : ℕ → Buffer → Option Buffer
  driver_line n img =
      if n == 1
      then draw_line fuel s img (pos 0) (pos 0) (pos 120) (pos 120) (rgb 12 58 21)
      else if n == 2
      then draw_line fuel s img (pos 120) (pos 67) (pos 321) (pos 399) (rgb 0 58 21)
      else if n == 3
      then draw_line fuel s img (pos 31) (pos 62) (pos 520) (pos 310) (rgb 12 0 21)
      else some img

  abbrev pub driver_exit : Drive → Drive
  driver_exit d = record d { screen = clear_screen s d.screen; done = true }

  -- A round of driver.c from getkey on.
  unfoldable pub driver_round : ℕ → Drive → Option Drive
  driver_round key d =
      if key == key_q
      then some (driver_exit d)
      else if key == key_n
      then elim (driver_line (d.count + 1) (clear_screen s d.img)) [
        | none ↦ none
        | some img ↦
            some (record d { img = img; count = d.count + 1; screen = blit s img d.screen })
      ]
      else some d

  -- The loop of driver.c: with `n == 3` it ends before it asks for a key.
  unfoldable pub driver_loop : List ℕ → Drive → Option Drive
  driver_loop [] d = some (if d.count == 3 then driver_exit d else d)
  driver_loop (key ∷ keys) d =
      let next : Option Drive = elim (driver_round key d) [
        | none ↦ none
        | some d' ↦ let rest = driver_loop keys d' in if d'.done then some d' else rest
      ] in
      if d.count == 3 then some (driver_exit d) else next

  -- main of driver.c
  unfoldable pub driver_main : Buffer → List ℕ → Option Drive
  driver_main screen keys = driver_loop keys (record {
    img = create_buffer;
    count = 0;
    screen = blit s create_buffer screen;
    done = false;
  })
