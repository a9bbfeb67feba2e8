-- ===== src/FileSystem/Io/InBlock.antt =====
-- Writing and reading within one block of a file, as csc452_write and csc452_read do.
use operating_system_impleme.Prelude.{
  List, [], ap, arith, false, get_or, get_or-set_ne, get_or-set_self, length, length-set, refl, set,
  suc, sym, true, zero, ℕ, ◌+◌, ◌<◌, ◌==◌, ◌∙◌, ◌∷◌, ◌≡◌, ◌≤◌,
}
use operating_system_impleme.Bytes.Words.{IsBytes}
use operating_system_impleme.Bytes.Region.{read_at-write_at_self}
use operating_system_impleme.FileSystem.Layout.{encode_block, max_data_in_block}
use operating_system_impleme.FileSystem.Layout.RoundTrip.{
  IsBlock, block_round_trip, length-encode_block,
}
use operating_system_impleme.FileSystem.Disk.{Disk}
use operating_system_impleme.FileSystem.Io.{Cursor, block_at, put_byte, read_loop, save, write_loop}

set-IsBytes : (xs : List ℕ) (i v : ℕ) → v < 256 → IsBytes xs → IsBytes (set xs i v)
set-IsBytes [] i v low h = tt
set-IsBytes (x ∷ xs) zero v low h = (low, h.1)
set-IsBytes (x ∷ xs) (suc i) v low h = (h.0, set-IsBytes xs i v low h.1)

-- The bytes over the content of a block.
overlay : List ℕ → ℕ → Cursor → Cursor
overlay [] i c = c
overlay (b ∷ bs) i c = overlay bs (i + 1) (put_byte i b c)

put_byte-IsBlock :
    (i b : ℕ) (c : Cursor) → b < 256 → IsBlock c.block → IsBlock (put_byte i b c).block
unfolding put_byte
put_byte-IsBlock i b c low h = record {
  content_size = length-set c.block.content i b ∙ h.content_size;
  content_bytes = set-IsBytes c.block.content i b low h.content_bytes;
  next_long = h.next_long;
}

overlay-IsBlock :
    (bs : List ℕ) (i : ℕ) (c : Cursor)
    → IsBytes bs
    → IsBlock c.block
    → IsBlock (overlay bs i c).block
unfolding overlay
overlay-IsBlock [] i c low h = h
overlay-IsBlock (b ∷ bs) i c low h =
    overlay-IsBlock bs (i + 1) (put_byte i b c) low.1 (put_byte-IsBlock i b c low.0 h)

overlay-address : (bs : List ℕ) (i : ℕ) (c : Cursor) → (overlay bs i c).address ≡ c.address
unfolding overlay put_byte
overlay-address [] i c = refl
overlay-address (b ∷ bs) i c = overlay-address bs (i + 1) (put_byte i b c)

-- What stands before the bytes stays.
overlay-below :
    (bs : List ℕ) (i j : ℕ) (c : Cursor)
    → j < i
    → get_or (overlay bs i c).block.content j 0 ≡ get_or c.block.content j 0
unfolding overlay put_byte
overlay-below [] i j c h = refl
overlay-below (b ∷ bs) i j c h =
    overlay-below bs (i + 1) j (put_byte i b c) (omega arith)
    ∙ get_or-set_ne c.block.content i j b 0 (λ e. omega arith)

write_loop-overlay :
    (bs : List ℕ) (i : ℕ) (c : Cursor) (d : Disk)
    → i + length bs ≤ 504
    → write_loop bs i c d ≡ (true, save (overlay bs i c) d)
unfolding write_loop overlay
write_loop-overlay [] i c d h = refl
write_loop-overlay (b ∷ bs) i c d h =
    let inside : (i == max_data_in_block) ≡ false = ground arith in
    rw inside (write_loop-overlay bs (i + 1) (put_byte i b c) d (omega arith))

read_loop-overlay :
    (bs : List ℕ) (i : ℕ) (c : Cursor) (d : Disk)
    → i + length bs ≤ 504
    → length c.block.content ≡ 504
    → read_loop (length bs) i (overlay bs i c).block d ≡ bs
unfolding read_loop overlay
read_loop-overlay [] i c d h size = refl
read_loop-overlay (b ∷ bs) i c d h size =
    let inside : (i == max_data_in_block) ≡ false = ground arith in
    let c' = put_byte i b c in
    let size' : length c'.block.content ≡ 504 =
      unfold put_byte in (length-set c.block.content i b ∙ size) in
    let here : get_or (overlay bs (i + 1) c').block.content i 0 ≡ b =
      overlay-below bs (i + 1) i c' (omega arith)
      ∙ unfold put_byte in (get_or-set_self c.block.content i b 0 (omega arith)) in
    rw (inside, here, read_loop-overlay bs (i + 1) c' d (omega arith) size') refl

block_at-save : (c : Cursor) (d : Disk) → IsBlock c.block → block_at c.address (save c d) ≡ c.block
unfolding block_at save
block_at-save c d h =
    let size = length-encode_block c.block h in
    let image = read_at-write_at_self c.address (encode_block c.block) d in
    rw (rw size at image) (block_round_trip c.block h)

-- The loop of csc452_write with bytes that fit behind `i` in a block: it succeeds, and the loop of
-- csc452_read on the block that it has written, from `i` on, gives these bytes.
pub write_loop-read_loop :
    (bs : List ℕ) (i : ℕ) (c : Cursor) (d : Disk)
    → IsBytes bs
    → IsBlock c.block
    → i + length bs ≤ 504
    → ((write_loop bs i c d).0 ≡ true)
      × (let d' = (write_loop bs i c d).1 in
          read_loop (length bs) i (block_at c.address d') d' ≡ bs)
write_loop-read_loop bs i c d low h fits =
    let c' = overlay bs i c in
    let at : block_at c.address (save c' d) ≡ c'.block =
      ap (λ a. block_at a (save c' d)) (sym (overlay-address bs i c))
      ∙ block_at-save c' d (overlay-IsBlock bs i c low h) in
    rw (write_loop-overlay bs i c d fits)
      (refl, rw at (read_loop-overlay bs i c (save c' d) fits h.content_size))
