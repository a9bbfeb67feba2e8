-- ===== src/FileSystem/Layout/Decode.antt =====
-- The structures that csc452fuse.c reads from a block of any bytes.
use operating_system_impleme.Prelude.{
  All, List, ap, arith, drop, length, length-drop, length-take, refl, suc, take, zero, ℕ, ◌*◌, ◌<◌,
  ◌≡◌, ◌≤◌,
}
use operating_system_impleme.Bytes.Words.{
  IsBytes, capacity, drop-IsBytes, take-IsBytes, unle, unle-lt,
}
use operating_system_impleme.FileSystem.Layout.{
  decode_array, decode_block, decode_directory, decode_entry, decode_file, decode_root,
}
use operating_system_impleme.FileSystem.Layout.RoundTrip.{
  IsBlock, IsDirectory, IsEntry, IsFile, IsRoot,
}

-- A block as it lies on the disk.
pub record IsImage (bs : List ℕ) : Type 0 where
  pub size : length bs ≡ 512
  pub bytes : IsBytes bs

unle-take : (n : ℕ) (bs : List ℕ) → IsBytes bs → n ≤ length bs → unle (take n bs) < capacity n
unle-take n bs h l =
    let e : length (take n bs) ≡ n = omega (arith, length-take n bs) in
    rw e at (unle-lt (take n bs) (take-IsBytes n bs h))

module _ {ℓ κ} {A : Type ℓ} (P : A → Type κ) (decode : List ℕ → A) (size : ℕ) where
  length-decode_array : (n : ℕ) (bs : List ℕ) → length (decode_array decode size n bs) ≡ n
  unfolding decode_array
  length-decode_array zero bs = refl
  length-decode_array (suc n) bs = ap suc (length-decode_array n (drop size bs))

  decode_array-All :
      ((bs : List ℕ) → length bs ≡ size → IsBytes bs → P (decode bs))
      → (n : ℕ) (bs : List ℕ) → n * size ≤ length bs
      → IsBytes bs
      → All P (decode_array decode size n bs)
  unfolding decode_array
  decode_array-All each zero bs l h = tt
  decode_array-All each (suc n) bs l h = (
    each (take size bs) (omega (arith, length-take size bs)) (take-IsBytes size bs h),
    decode_array-All each n (drop size bs) (omega (arith, length-drop size bs))
        (drop-IsBytes size bs h),
  )

decode_directory-IsDirectory :
    (bs : List ℕ) → length bs ≡ 17 → IsBytes bs → IsDirectory (decode_directory bs)
unfolding decode_directory
decode_directory-IsDirectory bs l h = record {
  name_size = omega (arith, length-take 9 bs);
  name_bytes = take-IsBytes 9 bs h;
  start_long = unle-take 8 (drop 9 bs) (drop-IsBytes 9 bs h) (omega (arith, length-drop 9 bs));
}

decode_file-IsFile : (bs : List ℕ) → length bs ≡ 29 → IsBytes bs → IsFile (decode_file bs)
unfolding decode_file
decode_file-IsFile bs l h =
    let h' = drop-IsBytes 9 bs h in
    let h'' = drop-IsBytes 4 (drop 9 bs) h' in
    let l' : length (drop 9 bs) ≡ 20 = omega (arith, length-drop 9 bs) in
    let l'' : length (drop 4 (drop 9 bs)) ≡ 16 = omega (arith, l', length-drop 4 (drop 9 bs)) in
    record {
      name_size = omega (arith, length-take 9 bs);
      name_bytes = take-IsBytes 9 bs h;
      ext_size = omega (arith, l', length-take 4 (drop 9 bs));
      ext_bytes = take-IsBytes 4 (drop 9 bs) h';
      size_long = unle-take 8 _ h'' (omega (arith, l''));
      start_long =
          unle-take 8 _ (drop-IsBytes 8 _ h'')
            (omega (arith, l'', length-drop 8 (drop 4 (drop 9 bs))));
    }

pub decode_root-IsRoot : (bs : List ℕ) → IsImage bs → IsRoot (decode_root bs)
unfolding decode_root
decode_root-IsRoot bs h =
    let l : length (drop 4 bs) ≡ 508 = omega (arith, length-drop 4 bs, h.size) in
    let h' = drop-IsBytes 4 bs h.bytes in
    record {
      count_int = unle-take 4 bs h.bytes (omega (arith, h.size));
      slots = length-decode_array IsDirectory decode_directory 17 29 (drop 4 bs);
      each =
          decode_array-All IsDirectory decode_directory 17 decode_directory-IsDirectory 29
            (drop 4 bs) (omega (arith, l)) h';
      pad_size = omega (arith, l, length-drop 493 (drop 4 bs));
      pad_bytes = drop-IsBytes 493 (drop 4 bs) h';
    }

pub decode_entry-IsEntry : (bs : List ℕ) → IsImage bs → IsEntry (decode_entry bs)
unfolding decode_entry
decode_entry-IsEntry bs h =
    let l : length (drop 4 bs) ≡ 508 = omega (arith, length-drop 4 bs, h.size) in
    let h' = drop-IsBytes 4 bs h.bytes in
    record {
      count_int = unle-take 4 bs h.bytes (omega (arith, h.size));
      slots = length-decode_array IsFile decode_file 29 17 (drop 4 bs);
      each =
          decode_array-All IsFile decode_file 29 decode_file-IsFile 17 (drop 4 bs)
            (omega (arith, l)) h';
      pad_size = omega (arith, l, length-drop 493 (drop 4 bs));
      pad_bytes = drop-IsBytes 493 (drop 4 bs) h';
    }

pub decode_block-IsBlock : (bs : List ℕ) → IsImage bs → IsBlock (decode_block bs)
unfolding decode_block
decode_block-IsBlock bs h =
    let l : length (drop 504 bs) ≡ 8 = omega (arith, length-drop 504 bs, h.size) in
    let h' = drop-IsBytes 504 bs h.bytes in
    record {
      content_size = omega (arith, length-take 504 bs, h.size);
      content_bytes = take-IsBytes 504 bs h.bytes;
      next_long = (rw l at (unle-lt (drop 504 bs) h'));
    }
