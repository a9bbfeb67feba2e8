-- ===== src/FileSystem/Disk/Lookup.antt =====
-- The loops of dir_exists and file_exist over a list that grows at its end, and reading the root
-- and the directories of a disk.
use operating_system_impleme.Prelude.{
  Bool, List, Option, [], ap, arith, if◌then◌else◌, length, none, some, ℕ, ◌++◌, ◌+◌, ◌<◌, ◌∷◌, ◌≡◌,
  ◌≤◌,
}
use operating_system_impleme.Bytes.Text.{c_str, str_eq}
use operating_system_impleme.Bytes.Words.{IsBytes}
use operating_system_impleme.Bytes.Region.{
  length-read_at, read_at, read_at-IsBytes, read_at-write_at_below, read_at-write_at_self, write_at,
}
use operating_system_impleme.FileSystem.Layout.{
  Directory, FileDirectory, RootDirectory, decode_root, encode_root,
}
use operating_system_impleme.FileSystem.Layout.RoundTrip.{
  IsRoot, length-encode_root, root_round_trip,
}
use operating_system_impleme.FileSystem.Layout.Decode.{IsImage, decode_root-IsRoot}
use operating_system_impleme.FileSystem.Disk.{Disk, find_directory, find_file, get_root}
use operating_system_impleme.FileSystem.Disk.Allocation.{Allocated, IsDisk}

-- The first answer, or else the second.
abbrev pub or_else : Option ℕ → Option ℕ → Option ℕ
or_else none o = o
or_else (some i) o = some i

pub find_directory-append :
    (i : ℕ) (name : List ℕ) (xs : List Directory) (e : Directory)
    → find_directory i name (xs ++ (e ∷ []))
      ≡ or_else
          (find_directory i name xs)
          (if str_eq name (c_str e.dname) then some (i + length xs) else none)
unfolding find_directory
find_directory-append i name [] e = ground arith
find_directory-append i name (x ∷ xs) e = ground (arith, find_directory-append (i + 1) name xs e)

pub find_file-append :
    (i : ℕ) (test : FileDirectory → Bool) (xs : List FileDirectory) (f : FileDirectory)
    → find_file i test (xs ++ (f ∷ []))
      ≡ or_else (find_file i test xs) (if test f then some (i + length xs) else none)
unfolding find_file
find_file-append i test [] f = ground arith
find_file-append i test (x ∷ xs) f = ground (arith, find_file-append (i + 1) test xs f)

-- An index that a loop returns is one that it has visited.
pub find_directory-lt :
    (i : ℕ) (name : List ℕ) (xs : List Directory) (j : ℕ)
    → find_directory i name xs ≡ some j
    → (i ≤ j) × (j < i + length xs)
unfolding find_directory
find_directory-lt i name [] j h = cc
find_directory-lt i name (x ∷ xs) j h = ground (arith, find_directory-lt (i + 1) name xs j)

pub find_file-lt :
    (i : ℕ) (test : FileDirectory → Bool) (xs : List FileDirectory) (j : ℕ)
    → find_file i test xs ≡ some j
    → (i ≤ j) × (j < i + length xs)
unfolding find_file
find_file-lt i test [] j h = cc
find_file-lt i test (x ∷ xs) j h = ground (arith, find_file-lt (i + 1) test xs j)

-- A block inside the disk is an image.
pub read_at-IsImage :
    (a : ℕ) (d : Disk) → IsBytes d → a + 512 ≤ length d → IsImage (read_at a 512 d)
read_at-IsImage a d h l = record {
  size = length-read_at a 512 d l;
  bytes = read_at-IsBytes a 512 d h;
}

pub get_root-IsRoot : (d : Disk) → IsDisk d → IsRoot (get_root d)
unfolding get_root
get_root-IsRoot d h = decode_root-IsRoot _ (read_at-IsImage 0 d h.bytes (omega arith))

-- A write behind the root leaves it alone.
pub get_root-write_at :
    (a : ℕ) (bs d : List ℕ) → 512 ≤ a → a ≤ length d → get_root (write_at a bs d) ≡ get_root d
unfolding get_root
get_root-write_at a bs d low high = ap decode_root (read_at-write_at_below 0 512 a bs d low high)

-- What an allocation gives has not touched the root.
pub Allocated-get_root :
    {d d' : Disk} {address : ℕ} → IsDisk d → Allocated d address d' → get_root d' ≡ get_root d
unfolding get_root
Allocated-get_root h a = ap decode_root (a.kept 0 512 (omega arith))

-- The root that is written is the root that is read.
pub get_root-encode :
    (r : RootDirectory) (d : Disk) → IsRoot r → get_root (write_at 0 (encode_root r) d) ≡ r
unfolding get_root
get_root-encode r d h =
    let back = read_at-write_at_self 0 (encode_root r) d in
    rw (rw (length-encode_root r h) at back) (root_round_trip r h)
