-- ===== src/FileSystem/Tree/Blank.antt =====
-- A disk file of zeros, as the project's instructions make it, before any call.
use operating_system_impleme.Prelude.{
  ap, arith, drop, length, length-replicate, refl, replicate, suc, take, zero, ℕ, ◌*◌, ◌+◌, ◌-◌,
  ◌<◌, ◌^◌, ◌∙◌, ◌∷◌, ◌≡◌, ◌≤◌,
}
use operating_system_impleme.Bytes.Words.{IsBytes, unle}
use operating_system_impleme.Bytes.Region.{read_at}
use operating_system_impleme.FileSystem.Layout.{decode_array, decode_directory, decode_root}
use operating_system_impleme.FileSystem.Disk.{Disk, get_root, last_taken, tracker}
use operating_system_impleme.FileSystem.Tree.{IsTree, dir_count}

zeros-IsBytes : (n : ℕ) → IsBytes (replicate n 0)
zeros-IsBytes zero = tt
zeros-IsBytes (suc n) = (omega arith, zeros-IsBytes n)

take-zeros : (n m : ℕ) → n ≤ m → take {A = ℕ} n (replicate m 0) ≡ replicate n 0
take-zeros zero m h = refl
take-zeros (suc n) zero h = absurd (omega arith)
take-zeros (suc n) (suc m) h = ap (λ l. 0 ∷ l) (take-zeros n m (omega arith))

drop-zeros : (a m : ℕ) → drop {A = ℕ} a (replicate m 0) ≡ replicate (m - a) 0
drop-zeros zero m = let same : m - 0 ≡ m = omega arith in rw same refl
drop-zeros (suc a) zero = let nothing : 0 - suc a ≡ 0 = omega arith in rw nothing refl
drop-zeros (suc a) (suc m) =
    let same : suc m - suc a ≡ m - a = omega arith in rw same (drop-zeros a m)

read-zeros : (a n m : ℕ) → a + n ≤ m → read_at a n (replicate m 0) ≡ replicate n 0
unfolding read_at
read-zeros a n m h = rw (drop-zeros a m) (take-zeros n (m - a) (omega arith))

blank_count : (decode_root (replicate 512 0)).n_directories ≡ 0
unfolding decode_root decode_array decode_directory unle
blank_count = refl

unle_zeros : unle (replicate 8 0) ≡ 0
unfolding unle
unle_zeros = refl

-- A disk of two or more blocks of zeros keeps the invariant, and has no directory.
pub zeros-IsTree :
    (n : ℕ)
    → 2 ≤ n
    → n < 2 ^ 52
    → IsTree (replicate (n * 512) 0) × (dir_count (replicate (n * 512) 0) ≡ 0)
unfolding get_root
zeros-IsTree n low high =
    let d : Disk = replicate (n * 512) 0 in
    let size : length d ≡ n * 512 = length-replicate (n * 512) 0 in
    let none_taken : last_taken d ≡ 0 =
      ap unle (read-zeros (tracker d) 8 (n * 512) (omega (arith, size))) ∙ unle_zeros in
    let count : dir_count d ≡ 0 =
      ap (λ bs. (decode_root bs).n_directories) (read-zeros 0 512 (n * 512) (omega arith))
      ∙ blank_count in
    (
      record {
        disk = record {
          bytes = zeros-IsBytes (n * 512);
          whole = omega (arith, size);
          small = omega (arith, size);
          aligned = omega (arith, none_taken);
          inside = omega (arith, none_taken, size);
        };
        few = omega (arith, count);
        low = λ i l. absurd (omega (arith, count));
        high = λ i l. absurd (omega (arith, count));
        whole = λ i l. absurd (omega (arith, count));
        apart = λ i j l l' e. absurd (omega (arith, count));
        listing = λ i l. absurd (omega (arith, count));
        blank = λ a l h. read-zeros a 512 (n * 512) (omega (arith, size));
      },
      count,
    )
