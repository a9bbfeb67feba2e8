-- ===== src/Bytes/Region.antt =====
-- A file as its list of bytes: what `fseek` with `fread` or `fwrite` reads and writes.
use operating_system_impleme.Prelude.{
  List, [], ap, arith, drop, length, length-drop, length-take, refl, suc, take, zero, ℕ, ◌+◌, ◌∙◌,
  ◌∷◌, ◌≡◌, ◌≤◌,
}
use operating_system_impleme.Bytes.Words.{IsBytes, drop-IsBytes, take-IsBytes}

-- Bytes past the end of the file are absent from the result.
unfoldable pub read_at : ℕ → ℕ → List ℕ → List ℕ
read_at a n d = take n (drop a d)

-- Overwrites in place; a write past the end fills the hole with zeros, as POSIX says.
unfoldable pub write_at : ℕ → List ℕ → List ℕ → List ℕ
write_at zero [] d = d
write_at zero (b ∷ bs) [] = b ∷ write_at zero bs []
write_at zero (b ∷ bs) (x ∷ d) = b ∷ write_at zero bs d
write_at (suc a) bs [] = 0 ∷ write_at a bs []
write_at (suc a) bs (x ∷ d) = x ∷ write_at a bs d

pub length-write_at :
    (a : ℕ) (bs d : List ℕ) → a + length bs ≤ length d → length (write_at a bs d) ≡ length d
unfolding write_at
length-write_at zero [] d h = refl
length-write_at zero (b ∷ bs) [] h = omega arith
length-write_at zero (b ∷ bs) (x ∷ d) h = ap suc (length-write_at zero bs d (omega arith))
length-write_at (suc a) bs [] h = omega arith
length-write_at (suc a) bs (x ∷ d) h = ap suc (length-write_at a bs d (omega arith))

pub read_at-write_at_self : (a : ℕ) (bs d : List ℕ) → read_at a (length bs) (write_at a bs d) ≡ bs
unfolding write_at read_at
read_at-write_at_self zero [] d = refl
read_at-write_at_self zero (b ∷ bs) [] = ap (λ t. b ∷ t) (read_at-write_at_self zero bs [])
read_at-write_at_self zero (b ∷ bs) (x ∷ d) = ap (λ t. b ∷ t) (read_at-write_at_self zero bs d)
read_at-write_at_self (suc a) bs [] = read_at-write_at_self a bs []
read_at-write_at_self (suc a) bs (x ∷ d) = read_at-write_at_self a bs d

-- A write leaves what lies wholly before it alone.
pub read_at-write_at_below :
    (c n a : ℕ) (bs d : List ℕ)
    → c + n ≤ a
    → a ≤ length d
    → read_at c n (write_at a bs d) ≡ read_at c n d
unfolding write_at read_at
read_at-write_at_below zero zero a bs d h l = refl
read_at-write_at_below zero (suc n) zero bs d h l = absurd (omega arith)
read_at-write_at_below zero (suc n) (suc a) bs [] h l = absurd (omega arith)
read_at-write_at_below zero (suc n) (suc a) bs (x ∷ d) h l =
    ap (λ t. x ∷ t) (read_at-write_at_below zero n a bs d (omega arith) (omega arith))
read_at-write_at_below (suc c) n zero bs d h l = absurd (omega arith)
read_at-write_at_below (suc c) n (suc a) bs [] h l = absurd (omega arith)
read_at-write_at_below (suc c) n (suc a) bs (x ∷ d) h l =
    read_at-write_at_below c n a bs d (omega arith) (omega arith)

drop-nil : (c : ℕ) → drop {A = ℕ} c [] ≡ []
drop-nil zero = refl
drop-nil (suc c) = refl

-- And what lies wholly behind it.
pub read_at-write_at_above :
    (c n a : ℕ) (bs d : List ℕ) → a + length bs ≤ c → read_at c n (write_at a bs d) ≡ read_at c n d
unfolding write_at read_at
read_at-write_at_above c n zero [] d h = refl
read_at-write_at_above zero n zero (b ∷ bs) d h = absurd (omega arith)
read_at-write_at_above (suc c) n zero (b ∷ bs) [] h =
    read_at-write_at_above c n zero bs [] (omega arith) ∙ ap (take n) (drop-nil c)
read_at-write_at_above (suc c) n zero (b ∷ bs) (x ∷ d) h =
    read_at-write_at_above c n zero bs d (omega arith)
read_at-write_at_above zero n (suc a) bs d h = absurd (omega arith)
read_at-write_at_above (suc c) n (suc a) bs [] h =
    read_at-write_at_above c n a bs [] (omega arith) ∙ ap (take n) (drop-nil c)
read_at-write_at_above (suc c) n (suc a) bs (x ∷ d) h =
    read_at-write_at_above c n a bs d (omega arith)

pub length-read_at : (a n : ℕ) (d : List ℕ) → a + n ≤ length d → length (read_at a n d) ≡ n
unfolding read_at
length-read_at a n d h = omega (arith, length-take n (drop a d), length-drop a d)

pub read_at-IsBytes : (a n : ℕ) (d : List ℕ) → IsBytes d → IsBytes (read_at a n d)
unfolding read_at
read_at-IsBytes a n d h = take-IsBytes n (drop a d) (drop-IsBytes a d h)

pub write_at-IsBytes : (a : ℕ) (bs d : List ℕ) → IsBytes bs → IsBytes d → IsBytes (write_at a bs d)
unfolding write_at
write_at-IsBytes zero [] d hb hd = hd
write_at-IsBytes zero (b ∷ bs) [] hb hd = (hb.0, write_at-IsBytes zero bs [] hb.1 tt)
write_at-IsBytes zero (b ∷ bs) (x ∷ d) hb hd = (hb.0, write_at-IsBytes zero bs d hb.1 hd.1)
write_at-IsBytes (suc a) bs [] hb hd = (omega arith, write_at-IsBytes a bs [] hb tt)
write_at-IsBytes (suc a) bs (x ∷ d) hb hd = (hd.0, write_at-IsBytes a bs d hb hd.1)
