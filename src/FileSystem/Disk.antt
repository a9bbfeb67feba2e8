-- ===== src/FileSystem/Disk.antt =====
-- The helpers of csc452fuse.c over the disk file: get_root, get_dir, file_exist, dir_exists and
-- next_free_block. The disk file is taken to exist; it is its list of bytes.
pub mod Allocation
pub mod Lookup
pub mod Entries
use operating_system_impleme.Prelude.{
  Bool, List, Option, [], get_or, if◌then◌else◌, leb, length, ltb, none, some, take, true, ℕ, ◌%◌,
  ◌&&◌, ◌+◌, ◌-◌, ◌==◌, ◌^◌, ◌∷◌,
}
use operating_system_impleme.Bytes.Words.{le, unle}
use operating_system_impleme.Bytes.Text.{c_str, str_eq}
use operating_system_impleme.Bytes.Region.{read_at, write_at}
use operating_system_impleme.FileSystem.Layout.{
  Directory, DirectoryEntry, FileDirectory, RootDirectory, block_size, decode_entry, decode_root,
}

-- The bytes of `.disk`.
abbrev pub Disk : Type 0
Disk = List ℕ

-- -1 as an int, and as a long or a size_t.
abbrev pub int_minus_one : ℕ
int_minus_one = 2 ^ 32 - 1

abbrev pub long_minus_one : ℕ
long_minus_one = 2 ^ 64 - 1

-- How often `for (int i = 0; i < n; i++)` runs.
abbrev pub rounds : ℕ → ℕ
rounds n = if ltb n (2 ^ 31) then n else 0

-- `a >= b` on longs.
abbrev pub geb_long : ℕ → ℕ → Bool
geb_long a b = leb ((b + 2 ^ 63) % 2 ^ 64) ((a + 2 ^ 63) % 2 ^ 64)

unfoldable pub get_root : Disk → RootDirectory
get_root d = decode_root (read_at 0 block_size d)

-- The loop of dir_exists over the entries that are left; `i` counts from the first one.
unfoldable pub find_directory : ℕ → List ℕ → List Directory → Option ℕ
find_directory i directory [] = none
find_directory i directory (e ∷ es) =
    let rest = find_directory (i + 1) directory es in
    if str_eq directory (c_str e.dname) then some i else rest

-- None is -1. The root has room for 29 entries, and the model reads no further.
unfoldable pub dir_exists : List ℕ → Disk → Option ℕ
dir_exists directory d =
    let root = get_root d in
    find_directory 0 directory (take (rounds root.n_directories) root.directories)

abbrev pub no_directory : Directory
no_directory = record { dname = []; n_start_block = 0 }

-- `root.directories[i].nStartBlock`
abbrev pub start_of : RootDirectory → ℕ → ℕ
start_of root i = (get_or root.directories i no_directory).n_start_block

-- The entry and its place in the root; none is -1, with the entry not filled.
unfoldable pub get_dir : List ℕ → Disk → Option (DirectoryEntry × ℕ)
get_dir directory d = elim (dir_exists directory d) [
  | none ↦ none
  | some dir_order ↦
      some (decode_entry (read_at (start_of (get_root d) dir_order) block_size d), dir_order)
]

-- The test of the loops over `entry.files`: with a third component the extension counts too.
unfoldable pub file_matches : List ℕ → List ℕ → Bool → FileDirectory → Bool
file_matches filename extension with_ext f =
    str_eq filename (c_str f.fname) && (if with_ext then str_eq extension (c_str f.fext) else true)

-- The index at which the loop breaks, or none if it runs to its end.
unfoldable pub find_file : ℕ → (FileDirectory → Bool) → List FileDirectory → Option ℕ
find_file i test [] = none
find_file i test (f ∷ fs) = let rest = find_file (i + 1) test fs in if test f then some i else rest

abbrev pub no_file : FileDirectory
no_file = record { fname = []; fext = []; fsize = 0; n_start_block = 0 }

-- The files that the loops visit.
abbrev pub live_files : DirectoryEntry → List FileDirectory
live_files entry = take (rounds entry.n_files) entry.files

-- The size of the file as an int, or -1.
unfoldable pub file_exist : List ℕ → List ℕ → List ℕ → ℕ → Disk → ℕ
file_exist directory filename extension path_comp d = elim (get_dir directory d) [
  | none ↦ int_minus_one
  | some (entry, dir_order) ↦
      elim (find_file 0 (file_matches filename extension (path_comp == 3)) (live_files entry)) [
        | none ↦ int_minus_one
        | some i ↦ (get_or entry.files i no_file).fsize % 2 ^ 32
      ]
]

-- The last block of the disk tracks the block that was handed out last.
abbrev pub tracker : Disk → ℕ
tracker d = length d - block_size

abbrev pub last_taken : Disk → ℕ
last_taken d = unle (read_at (tracker d) 8 d)

-- The start of the next free block, or -1 if the disk is full. The disk has at least one block, so
-- that both seeks from its end succeed.
unfoldable pub next_free_block : Disk → ℕ × Disk
next_free_block d =
    let file_max = (length d + 2 ^ 64 - block_size) % 2 ^ 64 in
    let next_free = (last_taken d + block_size) % 2 ^ 64 in
    if geb_long next_free file_max
    then (long_minus_one, d)
    else (next_free, write_at (tracker d) (le 8 next_free) d)
