-- ===== src/Graphics/Programs/Driver.antt =====
-- How main of driver.c goes on and ends, whatever keys are pressed.
use mathlib.Core.Bool.{true≢false}
use operating_system_impleme.Prelude.{
  Bool, Bool-cases, List, [], ap, arith, false, if◌then◌else◌, inl, inr, pos, refl, some, sym, true,
  ℕ, ◌+◌, ◌-ℤ◌, ◌<◌, ◌==◌, ◌∙◌, ◌∷◌, ◌≡◌, ◌≤◌,
}
use operating_system_impleme.Graphics.Screen.{
  Buffer, Screen, blit, clear_screen, clear_screen-all, pixels, rgb,
}
use operating_system_impleme.Graphics.Programs.{
  Drive, driver_exit, driver_line, driver_loop, driver_main, driver_round, key_n, key_q,
}
use operating_system_impleme.Graphics.Line.{draw_line}
use operating_system_impleme.Graphics.Line.Reach.{draw_line-ends, gap}

-- The program ends with `q`, or with the third `n`.
abbrev pub stops : ℕ → List ℕ → Bool
stops n [] = n == 3
stops n (key ∷ keys) =
    if n == 3
    then true
    else if key == key_q
    then true
    else stops (if key == key_n then n + 1 else n) keys

gap-bound : (a b : ℕ) → a ≤ 520 → b ≤ 520 → gap (pos a) (pos b) ≤ 520
unfolding ◌-ℤ◌
gap-bound a b ha hb = ground arith

line_between :
    (fuel : ℕ) (s : Screen) (img : Buffer) (a b c d color : ℕ)
    → 1040 < fuel
    → a ≤ 520
    → b ≤ 520
    → c ≤ 520
    → d ≤ 520
    → (img' : Buffer) × (draw_line fuel s img (pos a) (pos b) (pos c) (pos d) color ≡ some img')
line_between fuel s img a b c d color enough ha hb hc hd =
    let (img', run, ends, kept) =
      draw_line-ends fuel s img (pos a) (pos b) (pos c) (pos d) color
        (omega (arith, enough, gap-bound a c ha hc, gap-bound b d hb hd)) in
    (img', run)

module _ (fuel : ℕ) (s : Screen) (enough : 1040 < fuel) where
  -- Each of the three lines is drawn.
  line_returns : (n : ℕ) (img : Buffer) → (img' : Buffer) × (driver_line fuel s n img ≡ some img')
  unfolding driver_line
  line_returns n img = elim (Bool-cases (n == 1)) [
    | inl a ↦
        let (img', run) =
          line_between fuel s img 0 0 120 120 (rgb 12 58 21) enough (omega arith) (omega arith)
            (omega arith) (omega arith) in
        (img', rw a run)
    | inr a ↦ elim (Bool-cases (n == 2)) [
      | inl b ↦
          let (img', run) =
            line_between fuel s img 120 67 321 399 (rgb 0 58 21) enough (omega arith) (omega arith)
              (omega arith) (omega arith) in
          (img', rw (a, b) run)
      | inr b ↦ elim (Bool-cases (n == 3)) [
        | inl c ↦
            let (img', run) =
              line_between fuel s img 31 62 520 310 (rgb 12 0 21) enough (omega arith) (omega arith)
                (omega arith) (omega arith) in
            (img', rw (a, b, c) run)
        | inr c ↦ (img, rw (a, b, c) refl)
      ]
    ]
  ]

  -- A program that has ended shows an empty screen.
  pub record IsDrive (d : Drive) : Type 0 where
    pub ended : d.done ≡ true → (j : ℕ) → j < pixels s → d.screen j ≡ 0

  exit-IsDrive : (d : Drive) → IsDrive (driver_exit fuel s d)
  exit-IsDrive d = record { ended = λ e j l. clear_screen-all s d.screen j ∙ ground arith }

  round-IsDrive :
      (key : ℕ) (d : Drive)
      → d.done ≡ false
      → (d' : Drive) × (driver_round fuel s key d ≡ some d')
        × IsDrive d'
        × (d'.done ≡ (key == key_q))
        × (key == key_q ≡ false → d'.count ≡ (if key == key_n then d.count + 1 else d.count))
  unfolding driver_round
  round-IsDrive key d going = elim (Bool-cases (key == key_q)) [
    | inl q ↦ (
      driver_exit fuel s d,
      rw q refl,
      exit-IsDrive d,
      sym q,
      λ o. absurd (true≢false (sym q ∙ o)),
    )
    | inr o ↦ elim (Bool-cases (key == key_n)) [
      | inl n ↦
          let (img, run) = line_returns (d.count + 1) (clear_screen s d.img) in
          let d' : Drive = record d {
            img = img;
            count = d.count + 1;
            screen = blit s img d.screen;
          } in
          (
            d',
            rw (o, n, run) refl,
            record { ended = λ e. absurd (true≢false (sym e ∙ going)) },
            going ∙ sym o,
            λ _. rw n refl,
          )
      | inr n ↦ (
        d,
        rw (o, n) refl,
        record { ended = λ e. absurd (true≢false (sym e ∙ going)) },
        going ∙ sym o,
        λ _. rw n refl,
      )
    ]
  ]

  loop-IsDrive :
      (keys : List ℕ) (d : Drive)
      → d.done ≡ false
      → (d' : Drive) × (driver_loop fuel s keys d ≡ some d')
        × IsDrive d'
        × (d'.done ≡ stops d.count keys)
  unfolding driver_loop
  loop-IsDrive [] d going = elim (Bool-cases (d.count == 3)) [
    | inl b ↦ (driver_exit fuel s d, rw (driver_loop, b) refl, exit-IsDrive d, sym b)
    | inr b ↦ (
      d,
      rw (driver_loop, b) refl,
      record { ended = λ e. absurd (true≢false (sym e ∙ going)) },
      going ∙ sym b,
    )
  ]
  loop-IsDrive (key ∷ keys) d going = elim (Bool-cases (d.count == 3)) [
    | inl b ↦ (driver_exit fuel s d, rw (driver_loop, b) refl, exit-IsDrive d, rw b refl)
    | inr b ↦
        let (d₁, run, h₁, over, count) = round-IsDrive key d going in
        elim (Bool-cases (key == key_q)) [
          | inl q ↦
              let ended : d₁.done ≡ true = over ∙ q in
              (d₁, rw (driver_loop, b, run, ended) refl, h₁, ended ∙ rw (b, q) refl)
          | inr o ↦
              let runs : d₁.done ≡ false = over ∙ o in
              let (d₂, run', h₂, over') = loop-IsDrive keys d₁ runs in
              (
                d₂,
                rw (driver_loop, b, run, runs) run',
                h₂,
                rw (b, o) (over' ∙ ap (λ n. stops n keys) (count o)),
              )
        ]
  ]

-- With fuel for the three lines, main of driver.c comes, whatever keys are pressed, to wait for a key
-- or to its end; it ends exactly with the first `q` or the third `n`, and then the screen is empty.
pub driver_main_ends :
    (fuel : ℕ) (s : Screen) (screen : Buffer) (keys : List ℕ)
    → 1040 < fuel
    → (d : Drive) × (driver_main fuel s screen keys ≡ some d)
      × (d.done ≡ stops 0 keys)
      × (d.done ≡ true → (j : ℕ) → j < pixels s → d.screen j ≡ 0)
unfolding driver_main
driver_main_ends fuel s screen keys enough =
    let (d, run, h, over) = loop-IsDrive fuel s enough keys _ refl in (d, run, over, h.ended)
