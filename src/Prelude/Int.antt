-- ===== src/Prelude/Int.antt =====
-- Signed integers over the native numbers. Sums and orders go through the two parts of an integer,
-- which are numbers that `omega` reads.
use Prim.Native.Nat.{ℕ, zero, suc, ◌+◌, ◌-◌, ◌*◌, ◌^◌, ◌≤◌, ◌<◌}
use mathlib.Core.Path.{◌≡◌, refl}
use mathlib.Core.Logic.{◌⊎◌, inl, inr}
use mathlib.Core.Bool.{Bool, true, false}
use native.Mathlib.Omega.{arith}
use operating_system_impleme.Prelude.Tests.{if◌then◌else◌, leb, ltb, ◌==◌}

-- `negsuc n` is -(n + 1).
pub data ℤ : Type 0 where
  pos : ℕ → ℤ
  negsuc : ℕ → ℤ

abbrev pub pos_part : ℤ → ℕ
pos_part (pos n) = n
pos_part (negsuc n) = 0

abbrev pub neg_part : ℤ → ℕ
neg_part (pos n) = 0
neg_part (negsuc n) = suc n

-- a - b, as an integer.
abbrev pub sub_ℕ : ℕ → ℕ → ℤ
sub_ℕ a b = if leb b a then pos (a - b) else negsuc (b - a - 1)

infixl 65 ◌+ℤ◌ ◌-ℤ◌
infixl 70 ◌*ℤ◌
infix 50 ◌≤ℤ◌
unfoldable pub ◌+ℤ◌ : ℤ → ℤ → ℤ
a +ℤ b = sub_ℕ (pos_part a + pos_part b) (neg_part a + neg_part b)

unfoldable pub ◌-ℤ◌ : ℤ → ℤ → ℤ
a -ℤ b = sub_ℕ (pos_part a + neg_part b) (neg_part a + pos_part b)

unfoldable pub ◌*ℤ◌ : ℤ → ℤ → ℤ
a *ℤ b =
    sub_ℕ (pos_part a * pos_part b + neg_part a * neg_part b)
      (pos_part a * neg_part b + neg_part a * pos_part b)

abbrev pub ◌≤ℤ◌ : ℤ → ℤ → Type 0
a ≤ℤ b = pos_part a + neg_part b ≤ pos_part b + neg_part a

abbrev pub ltb_ℤ : ℤ → ℤ → Bool
ltb_ℤ a b = ltb (pos_part a + neg_part b) (pos_part b + neg_part a)

-- One lemma for each operation lets `omega` work with the operations shut, at any depth.
pub +ℤ_parts :
    (a b : ℤ)
    → pos_part (a +ℤ b) + neg_part a + neg_part b ≡ neg_part (a +ℤ b) + pos_part a + pos_part b
unfolding ◌+ℤ◌
+ℤ_parts a b = ground arith

pub -ℤ_parts :
    (a b : ℤ)
    → pos_part (a -ℤ b) + neg_part a + pos_part b ≡ neg_part (a -ℤ b) + pos_part a + neg_part b
unfolding ◌-ℤ◌
-ℤ_parts a b = ground arith

pub eq_of_parts : (a b : ℤ) → pos_part a + neg_part b ≡ pos_part b + neg_part a → a ≡ b
eq_of_parts a b h = ground arith

pub ruleset int_laws = (arith, +ℤ_parts, -ℤ_parts, eq_of_parts)

-- Tests on C ints.
abbrev pub leb_ℤ : ℤ → ℤ → Bool
leb_ℤ a b = leb (pos_part a + neg_part b) (pos_part b + neg_part a)

abbrev pub eqb_ℤ : ℤ → ℤ → Bool
eqb_ℤ a b = (pos_part a + neg_part b) == (pos_part b + neg_part a)

-- `-1`, the C code's mark for "none".
abbrev pub minus_one : ℤ
minus_one = negsuc 0

-- An int of 32 bits, with the wrap-around that the kernel is compiled for.
abbrev pub int_max : ℤ
int_max = pos (2 ^ 31 - 1)

abbrev pub int_min : ℤ
int_min = negsuc (2 ^ 31 - 1)

unfoldable pub int_succ : ℤ → ℤ
unfolding ◌+ℤ◌
int_succ v = if eqb_ℤ v int_max then int_min else v +ℤ pos 1

unfoldable pub int_pred : ℤ → ℤ
unfolding ◌-ℤ◌
int_pred v = if eqb_ℤ v int_min then int_max else v -ℤ pos 1

abbrev pub is_negative : ℤ → Bool
is_negative (pos n) = false
is_negative (negsuc n) = true

-- `v <= 0`
abbrev pub is_nonpositive : ℤ → Bool
is_nonpositive (pos zero) = true
is_nonpositive (pos (suc n)) = false
is_nonpositive (negsuc n) = true

-- `omega` reads int_pred and int_succ on small values by these.
pub int_pred_parts :
    (v : ℤ)
    → neg_part v < 100
    → (pos_part (int_pred v) ≡ pos_part v - 1)
      × (neg_part (int_pred v) ≡ neg_part v + (1 - pos_part v))
unfolding int_pred ◌-ℤ◌
int_pred_parts (pos n) h = (ground arith, ground arith)
int_pred_parts (negsuc n) h = (ground arith, ground arith)

pub int_succ_parts :
    (v : ℤ)
    → pos_part v < 100
    → (pos_part (int_succ v) ≡ pos_part v + (1 - neg_part v))
      × (neg_part (int_succ v) ≡ neg_part v - 1)
unfolding int_succ ◌+ℤ◌
int_succ_parts (pos n) h = (ground arith, ground arith)
int_succ_parts (negsuc n) h = (ground arith, ground arith)

pub is_negative_parts :
    (v : ℤ)
    → ((is_negative v ≡ true) × (0 < neg_part v)) ⊎ ((is_negative v ≡ false) × (neg_part v ≡ 0))
is_negative_parts (pos n) = inr (refl, refl)
is_negative_parts (negsuc n) = inl (refl, omega arith)
