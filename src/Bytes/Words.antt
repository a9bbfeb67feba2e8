-- ===== src/Bytes/Words.antt =====
-- Little-endian integers of a fixed number of bytes, as `fwrite` of an int or a long leaves them.
use operating_system_impleme.Prelude.{
  List, [], ap, arith, drop, length, refl, suc, take, zero, ℕ, ◌%◌, ◌*◌, ◌++◌, ◌+◌, ◌/◌, ◌<◌, ◌∷◌,
  ◌≡◌,
}

-- The `k` low bytes of `n`.
unfoldable pub le : ℕ → ℕ → List ℕ
le zero n = []
le (suc k) n = (n % 256) ∷ le k (n / 256)

unfoldable pub unle : List ℕ → ℕ
unle [] = 0
unle (b ∷ bs) = b + 256 * unle bs

-- 256 to the power `k`.
abbrev pub capacity : ℕ → ℕ
capacity zero = 1
capacity (suc k) = 256 * capacity k

-- Every element is a byte.
abbrev pub IsBytes : List ℕ → Type 0
IsBytes [] = Unit
IsBytes (b ∷ bs) = (b < 256) × IsBytes bs

pub length-le : (k n : ℕ) → length (le k n) ≡ k
unfolding le
length-le zero n = refl
length-le (suc k) n = ap suc (length-le k (n / 256))

pub le-IsBytes : (k n : ℕ) → IsBytes (le k n)
unfolding le
le-IsBytes zero n = tt
le-IsBytes (suc k) n = (omega arith, le-IsBytes k (n / 256))

pub unle-le : (k n : ℕ) → n < capacity k → unle (le k n) ≡ n
unfolding le unle
unle-le zero n h = omega arith
unle-le (suc k) n h = omega (arith, unle-le k (n / 256) (omega arith))

pub unle-lt : (bs : List ℕ) → IsBytes bs → unle bs < capacity (length bs)
unfolding unle
unle-lt [] h = omega arith
unle-lt (b ∷ bs) h = omega (arith, unle-lt bs h.1)

pub le-unle : (bs : List ℕ) → IsBytes bs → le (length bs) (unle bs) ≡ bs
unfolding le unle
le-unle [] h = refl
le-unle (b ∷ bs) h =
    let digit : (b + 256 * unle bs) % 256 ≡ b = omega (arith, h.0) in
    let rest : (b + 256 * unle bs) / 256 ≡ unle bs = omega (arith, h.0) in
    rw (digit, rest, le-unle bs h.1)

pub IsBytes-append : (xs ys : List ℕ) → IsBytes xs → IsBytes ys → IsBytes (xs ++ ys)
IsBytes-append [] ys hx hy = hy
IsBytes-append (x ∷ xs) ys hx hy = (hx.0, IsBytes-append xs ys hx.1 hy)

pub take-IsBytes : (n : ℕ) (d : List ℕ) → IsBytes d → IsBytes (take n d)
take-IsBytes zero d h = tt
take-IsBytes (suc n) [] h = tt
take-IsBytes (suc n) (x ∷ d) h = (h.0, take-IsBytes n d h.1)

pub drop-IsBytes : (n : ℕ) (d : List ℕ) → IsBytes d → IsBytes (drop n d)
drop-IsBytes zero d h = h
drop-IsBytes (suc n) [] h = tt
drop-IsBytes (suc n) (x ∷ d) h = drop-IsBytes n d h.1
