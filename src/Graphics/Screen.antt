-- ===== src/Graphics/Screen.antt =====
-- Pixels and buffers of library.c, and the colours of graphics.h. The framebuffer's resolution, which
-- ioctl reports, is a parameter of each function; the system calls themselves are left out.
use Prim.Native.Nat.{bit_or}
use operating_system_impleme.Prelude.{
  Bool, ap, arith, if◌then◌else◌, is_negative, leb, ltb, ltb_ℤ, pos, pos_part, suc, zero, ℕ, ℤ, ◌%◌,
  ◌&&◌, ◌*◌, ◌+◌, ◌/◌, ◌==◌, ◌^◌, ◌||◌, ◌∙◌, ◌≡◌,
}

-- `yLength` and `bitDepth`: the lines of the screen, and the bytes of a line.
pub record Screen : Type 0 where
  pub y_length : ℕ
  pub bit_depth : ℕ

-- A buffer of `color_t`, by index.
abbrev pub Buffer : Type 0
Buffer = ℕ → ℕ

-- `RGB(r, g, b)`: the cast binds to the red part only; the other two are or-ed in as ints.
unfoldable pub rgb : ℕ → ℕ → ℕ → ℕ
rgb r g b = bit_or (bit_or ((r * 2 ^ 11) % 2 ^ 16) (g * 2 ^ 5)) b

-- How many pixels a buffer holds: `size/2`, with `size = yLength*bitDepth`.
abbrev pub pixels : Screen → ℕ
pixels s = s.y_length * s.bit_depth / 2

-- The loop of clear_screen, with `left` indices to go.
unfoldable pub clear_from : ℕ → ℕ → Buffer → Buffer
clear_from zero i img = img
clear_from (suc left) i img = clear_from left (i + 1) (λ j. if j == i then 0 else img j)

-- `clear_screen`
unfoldable pub clear_screen : Screen → Buffer → Buffer
clear_screen s img = clear_from (pixels s) 0 img

-- The loop of blit.
unfoldable pub copy_from : ℕ → ℕ → Buffer → Buffer → Buffer
copy_from zero i src frame = frame
copy_from (suc left) i src frame =
    copy_from left (i + 1) src (λ j. if j == i then src i else frame j)

-- `blit`: the frame buffer with the pixels of `src`.
unfoldable pub blit : Screen → Buffer → Buffer → Buffer
blit s src frame = copy_from (pixels s) 0 src frame

-- The tests of draw_pixel that return early.
unfoldable pub is_off_screen : Screen → ℤ → ℤ → Bool
is_off_screen s x y =
    is_negative x || is_negative y || (ltb_ℤ (pos (s.bit_depth / 2)) x || ltb_ℤ (pos s.y_length) y)

-- The index that draw_pixel writes.
abbrev pub pixel_index : Screen → ℤ → ℤ → ℕ
pixel_index s x y = pos_part y * (s.bit_depth / 2) + pos_part x

-- `draw_pixel`
unfoldable pub draw_pixel : Screen → Buffer → ℤ → ℤ → ℕ → Buffer
draw_pixel s img x y color =
    if is_off_screen s x y then img else (λ j. if j == pixel_index s x y then color else img j)

clear_from-at :
    (left i : ℕ) (img : Buffer) (j : ℕ)
    → clear_from left i img j ≡ (if leb i j && ltb j (i + left) then 0 else img j)
unfolding clear_from
clear_from-at zero i img j = ground arith
clear_from-at (suc left) i img j = clear_from-at left (i + 1) _ j ∙ ground arith

-- clear_screen sets every pixel of the screen to 0, and nothing behind them.
pub clear_screen-all :
    (s : Screen) (img : Buffer) (j : ℕ)
    → clear_screen s img j ≡ (if ltb j (pixels s) then 0 else img j)
unfolding clear_screen
clear_screen-all s img j = clear_from-at (pixels s) 0 img j ∙ ground arith

copy_from-at :
    (left i : ℕ) (src frame : Buffer) (j : ℕ)
    → copy_from left i src frame j ≡ (if leb i j && ltb j (i + left) then src j else frame j)
unfolding copy_from
copy_from-at zero i src frame j = ground arith
copy_from-at (suc left) i src frame j = copy_from-at left (i + 1) src _ j ∙ ground arith

-- blit copies every pixel of the screen, and nothing behind them.
pub blit-all :
    (s : Screen) (src frame : Buffer) (j : ℕ)
    → blit s src frame j ≡ (if ltb j (pixels s) then src j else frame j)
unfolding blit
blit-all s src frame j = copy_from-at (pixels s) 0 src frame j ∙ ground arith

draw_pixel-below :
    (s : Screen) (img : Buffer) (color : ℕ)
    → draw_pixel s img (pos 0) (pos s.y_length) color (s.y_length * (s.bit_depth / 2)) ≡ color
unfolding draw_pixel is_off_screen
draw_pixel-below s img color = ground arith

-- The tests of draw_pixel let the point (0, yLength) pass, one row below the screen: with lines of an
-- even number of bytes it writes the first place behind the buffer.
pub draw_pixel-overrun :
    (s : Screen) (img : Buffer) (color : ℕ)
    → s.bit_depth % 2 ≡ 0
    → draw_pixel s img (pos 0) (pos s.y_length) color (pixels s) ≡ color
draw_pixel-overrun s img color even =
    let w : ℕ = s.bit_depth / 2 in
    let e : s.bit_depth ≡ w + w = omega (arith, even) in
    let f : s.y_length * s.bit_depth ≡ 2 * (s.y_length * w) =
      ap (λ b. s.y_length * b) e ∙ omega arith in
    let last : pixels s ≡ s.y_length * w = omega (arith, f) in
    ap (draw_pixel s img (pos 0) (pos s.y_length) color) last ∙ draw_pixel-below s img color
