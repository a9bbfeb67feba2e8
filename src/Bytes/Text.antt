-- ===== src/Bytes/Text.antt =====
-- C strings: `strcmp`, `strlen` and `strcpy` over char arrays.
use operating_system_impleme.Prelude.{
  Bool, List, [], arith, drop, false, if◌then◌else◌, length, length-append, length-drop, refl,
  replicate, suc, true, ℕ, ◌&&◌, ◌++◌, ◌+◌, ◌<◌, ◌==◌, ◌↔◌, ◌∷◌, ◌≡◌,
}
use operating_system_impleme.Bytes.Words.{IsBytes, IsBytes-append, drop-IsBytes}

-- A C string without its terminating NUL: no byte of it is 0.
abbrev pub IsText : List ℕ → Type 0
IsText [] = Unit
IsText (b ∷ bs) = (0 < b) × (b < 256) × IsText bs

-- What a char array holds as a C string: the bytes before the first NUL.
unfoldable pub c_str : List ℕ → List ℕ
c_str [] = []
c_str (b ∷ bs) = if b == 0 then [] else b ∷ c_str bs

-- `strcmp(s, t) == 0`
unfoldable pub str_eq : List ℕ → List ℕ → Bool
str_eq [] [] = true
str_eq [] (b ∷ bs) = false
str_eq (a ∷ s) [] = false
str_eq (a ∷ s) (b ∷ t) = (a == b) && str_eq s t

-- `strcpy(array, s)`: the string and its NUL over the front of the array.
unfoldable pub str_cpy : List ℕ → List ℕ → List ℕ
str_cpy array s = (s ++ 0 ∷ []) ++ drop (length s + 1) array

pub str_eq_refl : (s : List ℕ) → str_eq s s ≡ true
unfolding str_eq
str_eq_refl [] = refl
str_eq_refl (a ∷ s) = ground (arith, str_eq_refl s)

pub eq_of_str_eq : (s t : List ℕ) → str_eq s t ≡ true → s ≡ t
unfolding str_eq
eq_of_str_eq [] [] h = refl
eq_of_str_eq [] (b ∷ t) h = cc
eq_of_str_eq (a ∷ s) [] h = cc
eq_of_str_eq (a ∷ s) (b ∷ t) h = ground (arith, eq_of_str_eq s t)

pub str_eq_iff : (s t : List ℕ) → (str_eq s t ≡ true) ↔ (s ≡ t)
str_eq_iff s t = (eq_of_str_eq s t, λ e. rw e (str_eq_refl t))

pub c_str-append : (s rest : List ℕ) → IsText s → c_str ((s ++ 0 ∷ []) ++ rest) ≡ s
unfolding c_str
c_str-append [] rest h = refl
c_str-append (b ∷ s) rest h = ground (arith, c_str-append s rest h.2)

-- What was copied is what the array then holds.
pub c_str-str_cpy : (array s : List ℕ) → IsText s → c_str (str_cpy array s) ≡ s
unfolding str_cpy
c_str-str_cpy array s h = c_str-append s (drop (length s + 1) array) h

pub length-str_cpy :
    (array s : List ℕ) → length s < length array → length (str_cpy array s) ≡ length array
unfolding str_cpy
length-str_cpy array s h = omega (
  arith,
  length-append (s ++ 0 ∷ []) (drop (length s + 1) array),
  length-append s (0 ∷ []),
  length-drop (length s + 1) array,
)

IsText-IsBytes : (s : List ℕ) → IsText s → IsBytes s
IsText-IsBytes [] h = tt
IsText-IsBytes (b ∷ s) h = (h.1, IsText-IsBytes s h.2)

pub str_cpy-IsBytes : (array s : List ℕ) → IsText s → IsBytes array → IsBytes (str_cpy array s)
unfolding str_cpy
str_cpy-IsBytes array s hs ha =
    IsBytes-append (s ++ 0 ∷ []) (drop (length s + 1) array)
      (IsBytes-append s (0 ∷ []) (IsText-IsBytes s hs) (omega arith, tt))
      (drop-IsBytes (length s + 1) array ha)

pub c_str_idem : (array : List ℕ) → c_str (c_str array) ≡ c_str array
unfolding c_str
c_str_idem [] = refl
c_str_idem (b ∷ bs) = ground (arith, c_str_idem bs)

pub c_str-pad : (s : List ℕ) (k : ℕ) → c_str s ≡ s → c_str (s ++ replicate (suc k) 0) ≡ s
unfolding c_str
c_str-pad [] k h = refl
c_str-pad (b ∷ bs) k h = ground (arith, c_str-pad bs k)
