-- ===== src/Graphics/Hilbert/Path.antt =====
-- Where hilbert_recurse takes the turtle.
use operating_system_impleme.Prelude.{
  +ℤ_parts, -ℤ_parts, arith, if◌then◌else◌, inl, inr, minus_one, neg_part, negsuc, pos, pos_part,
  refl, some, ℕ, ℤ, ◌%◌, ◌*ℤ◌, ◌+ℤ◌, ◌+◌, ◌-ℤ◌, ◌<◌, ◌==◌, ◌≡◌, ◌⊎◌,
}
use operating_system_impleme.Graphics.Screen.{Buffer, Screen, rgb}
use operating_system_impleme.Graphics.Line.Reach.{draw_line-ends, gap}
use operating_system_impleme.Graphics.Hilbert.{
  Turtle, go_forward, negate, new_x, new_y, quarter, turn_left,
}

-- How much of `m` steps in a heading goes along this one.
abbrev pub along : ℕ → ℕ → ℕ → ℕ
along axis heading m = if heading == axis then m else 0

-- The turtle moves `m` steps in a heading, and looks where it looked.
pub record Moved (heading m : ℕ) (t t' : Turtle) : Type 0 where
  pub direction : t'.direction ≡ t.direction
  pub x :
      pos_part t'.curr_x + neg_part t.curr_x + along 180 heading m
      ≡ neg_part t'.curr_x + pos_part t.curr_x + along 0 heading m
  pub y :
      pos_part t'.curr_y + neg_part t.curr_y + along 270 heading m
      ≡ neg_part t'.curr_y + pos_part t.curr_y + along 90 heading m

abbrev pub IsHeading : ℕ → Type 0
IsHeading d = (d ≡ 0) ⊎ (d ≡ 90) ⊎ (d ≡ 180) ⊎ (d ≡ 270)

abbrev pub IsParity : ℤ → Type 0
IsParity p = (p ≡ pos 1) ⊎ (p ≡ minus_one)

one_part : (z : ℤ) → (pos_part z ≡ 0) ⊎ (neg_part z ≡ 0)
one_part (pos n) = inr refl
one_part (negsuc n) = inl refl

gap_right : (v : ℤ) (m : ℕ) → gap v (v +ℤ pos m) ≡ m
gap_right v m =
    let w = v +ℤ pos m in ground (arith, +ℤ_parts v (pos m), -ℤ_parts w v, one_part (w -ℤ v))

gap_left : (v : ℤ) (m : ℕ) → gap v (v -ℤ pos m) ≡ m
gap_left v m =
    let w = v -ℤ pos m in ground (arith, -ℤ_parts v (pos m), -ℤ_parts w v, one_part (w -ℤ v))

gap_self : (v : ℤ) → gap v v ≡ 0
gap_self v = ground (arith, -ℤ_parts v v, one_part (v -ℤ v))

-- go_forward reaches its end, with fuel for more points than the distance.
new-gap :
    (t : Turtle) (m : ℕ)
    → IsHeading t.direction
    → gap t.curr_x (new_x (pos m) t) + gap t.curr_y (new_y (pos m) t) ≡ m
unfolding new_x new_y
new-gap t m (inl e) = rw (e, gap_right t.curr_x m, gap_self t.curr_y) (omega arith)
new-gap t m (inr (inl e)) = rw (e, gap_right t.curr_y m, gap_self t.curr_x) (omega arith)
new-gap t m (inr (inr (inl e))) = rw (e, gap_left t.curr_x m, gap_self t.curr_y) (omega arith)
new-gap t m (inr (inr (inr e))) = rw (e, gap_left t.curr_y m, gap_self t.curr_x) (omega arith)

new-Moved :
    (t : Turtle) (m : ℕ) (img' : Buffer)
    → IsHeading t.direction
    → Moved t.direction m t
        (record t { curr_x = new_x (pos m) t; curr_y = new_y (pos m) t; img = img' })
unfolding new_x new_y
new-Moved t m img' h = record { direction = refl; x = ground arith; y = ground arith }

pub go_forward-Moved :
    (fuel : ℕ) (s : Screen) (m : ℕ) (t : Turtle)
    → IsHeading t.direction
    → m < fuel
    → (t' : Turtle) × (go_forward fuel s (pos m) t ≡ some t') × Moved t.direction m t t'
unfolding go_forward
go_forward-Moved fuel s m t h low =
    let (img', e, on, off) =
      draw_line-ends fuel s t.img t.curr_x t.curr_y (new_x (pos m) t) (new_y (pos m) t) (rgb 31 0 0)
        (omega (arith, new-gap t m h)) in
    (
      record t { curr_x = new_x (pos m) t; curr_y = new_y (pos m) t; img = img' },
      rw (go_forward, e) refl,
      new-Moved t m img' h,
    )

-- The direction after a turn.
pub spun : ℕ → ℤ → ℕ
unfolding ◌+ℤ◌ ◌-ℤ◌ ◌*ℤ◌
spun d p = pos_part (pos d +ℤ quarter p +ℤ pos 360) % 360

pub turn-spun : (t : Turtle) (p : ℤ) → (turn_left (quarter p) t).direction ≡ spun t.direction p
unfolding turn_left spun
turn-spun t p = refl

-- Two headings cancel.
pub record Opposite (h k : ℕ) : Type 0 where
  pub x : (m : ℕ) → along 180 h m + along 180 k m ≡ along 0 h m + along 0 k m
  pub y : (m : ℕ) → along 270 h m + along 270 k m ≡ along 90 h m + along 90 k m

-- What the turns of one round come to.
pub record Turns (d : ℕ) (p : ℤ) : Type 0 where
  pub side : IsHeading (spun d p)
  pub other : IsHeading (spun d (negate p))
  pub back : spun (spun d p) (negate p) ≡ d
  pub home : spun (spun d (negate p)) p ≡ d
  pub opposite : Opposite (spun d p) (spun d (negate p))

quarter_left : (d : ℕ) → IsHeading d → Turns d (pos 1)
unfolding spun
quarter_left d (inl e) = rw e (record {
  side = inr (inl refl);
  other = inr (inr (inr refl));
  back = refl;
  home = refl;
  opposite = record { x = λ m. refl; y = λ m. omega arith };
})
quarter_left d (inr (inl e)) = rw e (record {
  side = inr (inr (inl refl));
  other = inl refl;
  back = refl;
  home = refl;
  opposite = record { x = λ m. omega arith; y = λ m. refl };
})
quarter_left d (inr (inr (inl e))) = rw e (record {
  side = inr (inr (inr refl));
  other = inr (inl refl);
  back = refl;
  home = refl;
  opposite = record { x = λ m. refl; y = λ m. omega arith };
})
quarter_left d (inr (inr (inr e))) = rw e (record {
  side = inl refl;
  other = inr (inr (inl refl));
  back = refl;
  home = refl;
  opposite = record { x = λ m. omega arith; y = λ m. refl };
})

quarter_right : (d : ℕ) → IsHeading d → Turns d minus_one
unfolding spun
quarter_right d (inl e) = rw e (record {
  other = inr (inl refl);
  side = inr (inr (inr refl));
  back = refl;
  home = refl;
  opposite = record { x = λ m. refl; y = λ m. omega arith };
})
quarter_right d (inr (inl e)) = rw e (record {
  other = inr (inr (inl refl));
  side = inl refl;
  back = refl;
  home = refl;
  opposite = record { x = λ m. omega arith; y = λ m. refl };
})
quarter_right d (inr (inr (inl e))) = rw e (record {
  other = inr (inr (inr refl));
  side = inr (inl refl);
  back = refl;
  home = refl;
  opposite = record { x = λ m. refl; y = λ m. omega arith };
})
quarter_right d (inr (inr (inr e))) = rw e (record {
  other = inl refl;
  side = inr (inr (inl refl));
  back = refl;
  home = refl;
  opposite = record { x = λ m. omega arith; y = λ m. refl };
})

pub turns : (d : ℕ) (p : ℤ) → IsHeading d → IsParity p → Turns d p
turns d p h (inl e) = rw e (quarter_left d h)
turns d p h (inr e) = rw e (quarter_right d h)

pub negate-IsParity : (p : ℤ) → IsParity p → IsParity (negate p)
unfolding ◌-ℤ◌
negate-IsParity p (inl e) = inr (rw e refl)
negate-IsParity p (inr e) = inl (rw e refl)

pub along_add : (axis h m n : ℕ) → along axis h (m + n) ≡ along axis h m + along axis h n
along_add axis h m n = ground arith
