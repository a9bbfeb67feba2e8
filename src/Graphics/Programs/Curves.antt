-- ===== src/Graphics/Programs/Curves.antt =====
-- What main of hilbert.c shows, whatever keys are pressed.
use mathlib.Core.Bool.{true≢false}
use native.Mathlib.Nat.{div-le_self}
use mathlib.Core.Path.{subst}
use operating_system_impleme.Prelude.{
  Bool, Bool-cases, List, [], ap, arith, false, if◌then◌else◌, inl, inr, pos, refl, some, suc, sym,
  true, ℕ, ◌+◌, ◌/◌, ◌<◌, ◌==◌, ◌^◌, ◌∙◌, ◌∷◌, ◌≡◌, ◌≤◌,
}
use operating_system_impleme.Graphics.Screen.{
  Buffer, Screen, blit, blit-all, clear_screen, clear_screen-all, pixels,
}
use operating_system_impleme.Graphics.Hilbert.{Turtle, hilbert}
use operating_system_impleme.Graphics.Programs.{
  Show, create_buffer, curve_loop, curve_main, curve_round, draw_curve, exit_graphics, key_n, key_q,
  new_turtle, to_origin,
}
use operating_system_impleme.Graphics.Hilbert.Curve.{hilbert_recurse-Moved}

div-bound : (a b : ℕ) → a / b ≤ a
div-bound a b = div-le_self a b

module _ (fuel : ℕ) (s : Screen) where
  -- The framebuffer shows the curve of level `n`, drawn from the corner into an empty buffer.
  pub record ShowsCurve (n : ℕ) (frame : Buffer) : Type 0 where
    pub blank : Buffer
    pub drawn : Turtle
    pub clean : (j : ℕ) → j < pixels s → blank j ≡ 0
    pub curve :
        hilbert fuel s n
          (pos 1)
          (record { direction = 0; curr_x = pos 0; curr_y = pos 0; img = blank })
        ≡ some drawn
    pub shows : (j : ℕ) → j < pixels s → frame j ≡ drawn.img j

  -- Before the end it shows the curve, and at the end nothing.
  pub record IsShow (p : Show) : Type 0 where
    pub heading : p.turtle.direction ≡ 0
    pub running : p.over ≡ false → ShowsCurve p.n p.frame
    pub ended : p.over ≡ true → (j : ℕ) → j < pixels s → p.frame j ≡ 0

  cleared : (img : Buffer) (j : ℕ) → j < pixels s → clear_screen s img j ≡ 0
  cleared img j l = clear_screen-all s img j ∙ ground arith

  copied : (src frame : Buffer) (j : ℕ) → j < pixels s → blit s src frame j ≡ src j
  copied src frame j l = blit-all s src frame j ∙ ground arith

  draw_curve-ShowsCurve :
      (n : ℕ) (img frame : Buffer)
      → 479 < fuel
      → ((j : ℕ) → j < pixels s → img j ≡ 0)
      → let t = record new_turtle { img = img } in
        (p : Show) × (draw_curve fuel s n t frame ≡ some p)
        × IsShow p
        × (p.n ≡ n)
        × (p.over ≡ false)
  unfolding draw_curve hilbert
  draw_curve-ShowsCurve n img frame enough clean =
      let t : Turtle = record new_turtle { img = img } in
      let (t', run, moved) =
        hilbert_recurse-Moved fuel s n (pos 1) (479 / 2 ^ n) t (inl refl) (inl refl)
          (omega (arith, div-bound 479 (2 ^ n), enough)) in
      (
        record { turtle = t'; n = n; frame = blit s t'.img frame; over = false },
        rw (draw_curve, hilbert, run) refl,
        record {
          heading = moved.direction;
          running = λ e. record {
            blank = img;
            drawn = t';
            clean = clean;
            curve = run;
            shows = copied t'.img frame;
          };
          ended = λ e. absurd (true≢false (sym e));
        },
        refl,
        refl,
      )

  draw_curve-IsShow :
      (n : ℕ) (t : Turtle) (frame : Buffer)
      → 479 < fuel
      → t ≡ record new_turtle { img = t.img }
      → ((j : ℕ) → j < pixels s → t.img j ≡ 0)
      → (p : Show) × (draw_curve fuel s n t frame ≡ some p)
        × IsShow p
        × (p.n ≡ n)
        × (p.over ≡ false)
  draw_curve-IsShow n t frame enough e clean =
      let (p, run, good, e', going) = draw_curve-ShowsCurve n t.img frame enough clean in
      (p, ap (λ u. draw_curve fuel s n u frame) e ∙ run, good, e', going)

  at_origin :
      (d : ℕ) (img : Buffer)
      → d ≡ 0
      → (record new_turtle { direction = d; img = img }) ≡ (record new_turtle { img = img })
  at_origin d img e = ap (λ x. record new_turtle { direction = x; img = img }) e

  curve_round-IsShow :
      (key : ℕ) (p : Show)
      → 479 < fuel
      → p.over ≡ false
      → IsShow p
      → (p' : Show) × (curve_round fuel s key p ≡ some p')
        × IsShow p'
        × (p'.over ≡ (key == key_q))
        × (p'.n ≡ (if key == key_q then p.n else if key == key_n then p.n + 1 else p.n))
  unfolding curve_round
  curve_round-IsShow key p enough going h = elim (Bool-cases (key == key_q)) [
    | inl q ↦ (
      exit_graphics s (record p { turtle = to_origin fuel s p.turtle }),
      rw q refl,
      record {
        heading = h.heading;
        running = λ e. absurd (true≢false e);
        ended = λ e. cleared p.frame;
      },
      sym q,
      rw q refl,
    )
    | inr o ↦ elim (Bool-cases (key == key_n)) [
      | inl n ↦
          let img : Buffer = clear_screen s p.turtle.img in
          let (p', run, good, e, going') =
            draw_curve-IsShow (p.n + 1) (record (to_origin fuel s p.turtle) { img = img }) p.frame
              enough (at_origin p.turtle.direction img h.heading) (cleared p.turtle.img) in
          (p', rw (o, n) run, good, going' ∙ sym o, rw (o, n) e)
      | inr n ↦ (
        record p { turtle = to_origin fuel s p.turtle },
        rw (o, n) refl,
        record { heading = h.heading; running = h.running; ended = h.ended },
        going ∙ sym o,
        rw (o, n) refl,
      )
    ]
  ]

-- Whether `q` is pressed, and how often `n` is pressed before.
abbrev pub quits : List ℕ → Bool
quits [] = false
quits (key ∷ keys) = if key == key_q then true else quits keys

abbrev pub presses : List ℕ → ℕ
presses [] = 0
presses (key ∷ keys) =
    if key == key_q then 0 else if key == key_n then suc (presses keys) else presses keys

module _ (fuel : ℕ) (s : Screen) (enough : 479 < fuel) where
  counted :
      (key n n' later : ℕ)
      → (key == key_q) ≡ false
      → n' ≡ (if key == key_q then n else if key == key_n then n + 1 else n)
      → n' + later ≡ n + (if key == key_n then suc later else later)
  counted key n n' later o e = ground arith

  curve_loop-IsShow :
      (keys : List ℕ) (p : Show)
      → p.over ≡ false
      → IsShow fuel s p
      → (p' : Show) × (curve_loop fuel s keys p ≡ some p')
        × IsShow fuel s p'
        × (p'.over ≡ quits keys)
        × (p'.n ≡ p.n + presses keys)
  unfolding curve_loop
  curve_loop-IsShow [] p going h = (p, refl, h, going, omega arith)
  curve_loop-IsShow (key ∷ keys) p going h =
      let (p₁, run, h₁, over, level) = curve_round-IsShow fuel s key p enough going h in
      elim (Bool-cases (key == key_q)) [
        | inl q ↦
            let ended : p₁.over ≡ true = over ∙ q in
            let same : p₁.n ≡ p.n = level ∙ rw q refl in
            (
              p₁,
              rw (curve_loop, run, ended) refl,
              h₁,
              ended ∙ rw q refl,
              rw q (omega (arith, same)),
            )
        | inr o ↦
            let runs : p₁.over ≡ false = over ∙ o in
            let (p₂, run', h₂, over', level') = curve_loop-IsShow keys p₁ runs h₁ in
            (
              p₂,
              rw (curve_loop, run, runs) run',
              h₂,
              rw o over',
              rw o (level' ∙ counted key p.n p₁.n (presses keys) o level),
            )
      ]

-- With fuel for lines of 480 points, main of hilbert.c comes, whatever keys are pressed, either to wait
-- for a key, and the framebuffer shows the curve of level 1 plus the number of times that `n` was
-- pressed, drawn from the corner, or, if `q` was pressed, to its end with an empty screen.
pub curve_main_shows :
    (fuel : ℕ) (s : Screen) (frame : Buffer) (keys : List ℕ)
    → 479 < fuel
    → (p : Show) × (curve_main fuel s frame keys ≡ some p)
      × (p.over ≡ quits keys)
      × (p.over ≡ false → ShowsCurve fuel s (1 + presses keys) p.frame)
      × (p.over ≡ true → (j : ℕ) → j < pixels s → p.frame j ≡ 0)
unfolding curve_main
curve_main_shows fuel s frame keys enough =
    let (p₁, run, h₁, level, going) =
      draw_curve-ShowsCurve fuel s 1 create_buffer frame enough (λ j l. refl) in
    let (p, run', h, over, count) = curve_loop-IsShow fuel s enough keys p₁ going h₁ in
    let shown : p.n ≡ 1 + presses keys = omega (arith, count, level) in
    (
      p,
      rw (curve_main, run) run',
      over,
      (λ e. subst (λ n. ShowsCurve fuel s n p.frame) shown (h.running e)),
      h.ended,
    )
