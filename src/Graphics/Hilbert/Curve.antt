-- ===== src/Graphics/Hilbert/Curve.antt =====
-- The whole of hilbert_recurse in hilbert.c, as one move of the turtle.
use mathlib.Core.Path.{subst}
use operating_system_impleme.Prelude.{
  ap, arith, neg_part, pos, pos_part, refl, some, suc, sym, zero, ℕ, ℤ, ◌*◌, ◌+◌, ◌-◌, ◌<◌, ◌^◌,
  ◌∙◌, ◌≡◌,
}
use operating_system_impleme.Graphics.Screen.{Screen}
use operating_system_impleme.Graphics.Hilbert.{
  Move, Turtle, go_forward, hilbert_recurse, negate, quarter, turn_left, ◌>=>◌,
}
use operating_system_impleme.Graphics.Hilbert.Path.{
  IsHeading, IsParity, Moved, Opposite, along_add, go_forward-Moved, negate-IsParity, spun,
  turn-spun, turns,
}

-- The turtle stays where it is.
record Still (t t' : Turtle) : Type 0 where
  x : t'.curr_x ≡ t.curr_x
  y : t'.curr_y ≡ t.curr_y

turn-Still : (t : Turtle) (degrees : ℤ) → Still t (turn_left degrees t)
unfolding turn_left
turn-Still t degrees = record { x = refl; y = refl }

-- From a turtle that looks in the heading `k` a move goes `m` steps.
abbrev Goes : Move → ℕ → ℕ → Turtle → Type 0
Goes f k m t = (t' : Turtle) × (f t ≡ some t') × Moved k m t t' × (t'.direction ≡ k)

-- The way along the heading `h`, the way along `d`, and the way back along `k`, which cancels the
-- first.
module _ (d h k c m : ℕ) (o : Opposite h k) where
  around-x :
      {t a2 a3 a5 a6 a7 a9 a10 : Turtle}
      → {a1 a4 a8 a11 : Turtle} → Still t a1
      → Moved h c a1 a2
      → Moved h m a2 a3
      → Still a3 a4
      → Moved d c a4 a5
      → Moved d m a5 a6
      → Moved d c a6 a7
      → Still a7 a8
      → Moved k m a8 a9
      → Moved k c a9 a10
      → Still a10 a11
      → a11.direction ≡ t.direction
      → Moved d (c + m + c) t a11
  around-x s1 m2 m3 s4 m5 m6 m7 s8 m9 m10 s11 e = record {
    direction = e;
    x = omega (
      arith,
      ap pos_part s1.x,
      ap neg_part s1.x,
      m2.x,
      m3.x,
      ap pos_part s4.x,
      ap neg_part s4.x,
      m5.x,
      m6.x,
      m7.x,
      ap pos_part s8.x,
      ap neg_part s8.x,
      m9.x,
      m10.x,
      ap pos_part s11.x,
      ap neg_part s11.x,
      along_add 0 d (c + m) c,
      along_add 0 d c m,
      along_add 180 d (c + m) c,
      along_add 180 d c m,
      o.x c,
      o.x m,
    );
    y = omega (
      arith,
      ap pos_part s1.y,
      ap neg_part s1.y,
      m2.y,
      m3.y,
      ap pos_part s4.y,
      ap neg_part s4.y,
      m5.y,
      m6.y,
      m7.y,
      ap pos_part s8.y,
      ap neg_part s8.y,
      m9.y,
      m10.y,
      ap pos_part s11.y,
      ap neg_part s11.y,
      along_add 90 d (c + m) c,
      along_add 90 d c m,
      along_add 270 d (c + m) c,
      along_add 270 d c m,
      o.y c,
      o.y m,
    );
  }

seq : (f g : Move) (t t' : Turtle) → f t ≡ some t' → (f >=> g) t ≡ g t'
unfolding ◌>=>◌
seq f g t t' e = rw (◌>=>◌, e) refl

go-Goes :
    (fuel : ℕ) (s : Screen) (m : ℕ)
    → m < fuel
    → (k : ℕ) → IsHeading k
    → (t : Turtle) → t.direction ≡ k
    → Goes (go_forward fuel s (pos m)) k m t
go-Goes fuel s m low k h t e =
    let (t', run, moved) = go_forward-Moved fuel s m t (rw e h) low in
    (t', run, subst (λ x. Moved x m t t') e moved, moved.direction ∙ e)

-- 2 ^ n - 1 steps of `m` each.
abbrev pub reach : ℕ → ℕ → ℕ
reach zero m = 0
reach (suc n) m = reach n m + m + reach n m

curve-Goes :
    (fuel : ℕ) (s : Screen) (m : ℕ)
    → m < fuel
    → (n : ℕ) (p : ℤ) → IsParity p
    → (k : ℕ) → IsHeading k
    → (t : Turtle) → t.direction ≡ k
    → Goes (hilbert_recurse fuel s n p (pos m)) k (reach n m) t
unfolding hilbert_recurse
curve-Goes fuel s m low zero p hp k h t e =
    (t, refl, record { direction = refl; x = ground arith; y = ground arith }, e)
curve-Goes fuel s m low (suc n) p hp k h t e =
    let w = turns k p h hp in
    let hq = negate-IsParity p hp in
    let a1 = turn_left (quarter p) t in
    let d1 : a1.direction ≡ spun k p = turn-spun t p ∙ ap (λ x. spun x p) e in
    let (a2, e2, m2, d2) = curve-Goes fuel s m low n (negate p) hq (spun k p) w.side a1 d1 in
    let (a3, e3, m3, d3) = go-Goes fuel s m low (spun k p) w.side a2 d2 in
    let a4 = turn_left (quarter (negate p)) a3 in
    let d4 : a4.direction ≡ k =
      turn-spun a3 (negate p) ∙ (ap (λ x. spun x (negate p)) d3 ∙ w.back) in
    let (a5, e5, m5, d5) = curve-Goes fuel s m low n p hp k h a4 d4 in
    let (a6, e6, m6, d6) = go-Goes fuel s m low k h a5 d5 in
    let (a7, e7, m7, d7) = curve-Goes fuel s m low n p hp k h a6 d6 in
    let a8 = turn_left (quarter (negate p)) a7 in
    let d8 : a8.direction ≡ spun k (negate p) =
      turn-spun a7 (negate p) ∙ ap (λ x. spun x (negate p)) d7 in
    let (a9, e9, m9, d9) = go-Goes fuel s m low (spun k (negate p)) w.other a8 d8 in
    let (a10, e10, m10, d10) =
      curve-Goes fuel s m low n (negate p) hq (spun k (negate p)) w.other a9 d9 in
    let a11 = turn_left (quarter p) a10 in
    let d11 : a11.direction ≡ k = turn-spun a10 p ∙ (ap (λ x. spun x p) d10 ∙ w.home) in
    (
      a11,
      seq _ _ t a1 refl
          ∙ (seq _ _ a1 a2 e2
              ∙ (seq _ _ a2 a3 e3
                  ∙ (seq _ _ a3 a4 refl
                      ∙ (seq _ _ a4 a5 e5
                          ∙ (seq _ _ a5 a6 e6
                              ∙ (seq _ _ a6 a7 e7
                                  ∙ (seq _ _ a7 a8 refl
                                      ∙ (seq _ _ a8 a9 e9 ∙ seq _ _ a9 a10 e10)))))))),
      around-x k (spun k p) (spun k (negate p)) (reach n m) m w.opposite (turn-Still t _) m2 m3
          (turn-Still a3 _) m5 m6 m7 (turn-Still a7 _) m9 m10 (turn-Still a10 _) (d11 ∙ sym e),
      d11,
    )

reach_power : (n m : ℕ) → reach n m + m ≡ 2 ^ n * m
reach_power zero m = omega arith
reach_power (suc n) m =
    let pow : 2 ^ suc n ≡ 2 ^ n + 2 ^ n = omega arith in
    let twice : 2 ^ suc n * m ≡ 2 ^ n * m + 2 ^ n * m = ap (λ x. x * m) pow ∙ omega arith in
    omega (arith, twice, reach_power n m)

-- hilbert_recurse returns on every level, with fuel for more points than one of its lines has: the
-- turtle looks where it looked, and stands (2 ^ n - 1) * dist steps ahead of where it stood.
pub hilbert_recurse-Moved :
    (fuel : ℕ) (s : Screen) (n : ℕ) (p : ℤ) (dist : ℕ) (t : Turtle)
    → IsParity p
    → IsHeading t.direction
    → dist < fuel
    → (t' : Turtle) × (hilbert_recurse fuel s n p (pos dist) t ≡ some t')
      × Moved t.direction (2 ^ n * dist - dist) t t'
hilbert_recurse-Moved fuel s n p dist t hp h low =
    let (t', run, moved, d) = curve-Goes fuel s dist low n p hp t.direction h t refl in
    let far : reach n dist ≡ 2 ^ n * dist - dist = omega (arith, reach_power n dist) in
    (t', run, rw far at moved)
