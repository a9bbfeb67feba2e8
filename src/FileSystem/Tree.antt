-- ===== src/FileSystem/Tree.antt =====
-- The invariant of the whole disk of csc452fuse.c: a root whose directories lie in blocks of their
-- own, files whose sizes fit an int, and zeros in every block that was never handed out.
pub mod Mkdir
pub mod Mknod
pub mod Outcome
pub mod NewDirectory
pub mod NewFile
pub mod Blank
pub mod Stray
use operating_system_impleme.Prelude.{
  All, All-get_or, Bool, List, Option, Option-cases, arith, get_or, get_or-take, inl, inr,
  length-take, none, replicate, some, take, ℕ, ◌%◌, ◌+◌, ◌<◌, ◌==◌, ◌^◌, ◌≡◌, ◌≤◌, ◌⊎◌,
}
use operating_system_impleme.Bytes.Region.{read_at}
use operating_system_impleme.FileSystem.Layout.{
  DirectoryEntry, FileDirectory, block_size, decode_entry,
}
use operating_system_impleme.FileSystem.Disk.{
  Disk, dir_exists, file_exist, file_matches, find_file, get_dir, get_root, int_minus_one,
  last_taken, live_files, no_file, rounds, start_of, tracker,
}
use operating_system_impleme.FileSystem.Disk.Allocation.{IsDisk}
use operating_system_impleme.FileSystem.Disk.Lookup.{find_directory-lt, find_file-lt}
use operating_system_impleme.FileSystem.Disk.Entries.{IsPlaced}

-- The entry of the directory with index `i`.
abbrev pub entry_at : Disk → ℕ → DirectoryEntry
entry_at d i = decode_entry (read_at (start_of (get_root d) i) block_size d)

abbrev pub dir_count : Disk → ℕ
dir_count d = (get_root d).n_directories

-- A directory's entry as the handlers leave it.
pub record IsListing (e : DirectoryEntry) : Type 0 where
  pub few : e.n_files ≤ 17
  pub sizes : All (λ f. f.fsize < 2 ^ 31) (live_files e)

pub record IsTree (d : Disk) : Type 0 where
  pub disk : IsDisk d
  pub few : dir_count d ≤ 29
  pub low : (i : ℕ) → i < dir_count d → 512 ≤ start_of (get_root d) i
  pub high : (i : ℕ) → i < dir_count d → start_of (get_root d) i ≤ last_taken d
  pub whole : (i : ℕ) → i < dir_count d → start_of (get_root d) i % 512 ≡ 0
  pub apart :
      (i j : ℕ)
      → i < dir_count d
      → j < dir_count d
      → start_of (get_root d) i ≡ start_of (get_root d) j
      → i ≡ j
  pub listing : (i : ℕ) → i < dir_count d → IsListing (entry_at d i)
  pub blank :
      (a : ℕ) → last_taken d + 512 ≤ a → a + 512 ≤ tracker d → read_at a 512 d ≡ replicate 512 0

pub placed :
    {d : Disk} → IsTree d → (i : ℕ) → i < dir_count d → IsPlaced d (start_of (get_root d) i)
placed t i l = record { low = t.low i l; high = omega (arith, t.high i l, t.disk.inside) }

-- What dir_exists finds is one of the directories.
pub dir_exists-lt :
    {d : Disk} → IsTree d → (name : List ℕ) (i : ℕ) → dir_exists name d ≡ some i → i < dir_count d
unfolding dir_exists
dir_exists-lt {d} t name i h =
    let root = get_root d in
    let same : rounds root.n_directories ≡ root.n_directories = ground (arith, t.few) in
    omega (
      arith,
      find_directory-lt 0 name (take (rounds root.n_directories) root.directories) i h,
      length-take (rounds root.n_directories) root.directories,
      same,
    )

-- get_dir by its parts.
pub get_dir_cases :
    (name : List ℕ) (d : Disk)
    → ((dir_exists name d ≡ none) × (get_dir name d ≡ none))
      ⊎ ((i : ℕ) × (dir_exists name d ≡ some i) × (get_dir name d ≡ some (entry_at d i, i)))
unfolding get_dir
get_dir_cases name d = elim (Option-cases (dir_exists name d)) [
  | inl e ↦ inl (e, rw (e, get_dir))
  | inr (i, e) ↦ inr (i, e, rw (e, get_dir))
]

-- What file_exist makes of the result of its loop.
abbrev pub found_size : DirectoryEntry → Option ℕ → ℕ
found_size entry none = int_minus_one
found_size entry (some i) = (get_or entry.files i no_file).fsize % 2 ^ 32

pub file_exist-eq_found :
    (dir name ext : List ℕ) (n i : ℕ) (d : Disk)
    → dir_exists dir d ≡ some i
    → file_exist dir name ext n d
      ≡ found_size
          (entry_at d i)
          (find_file 0 (file_matches name ext (n == 3)) (live_files (entry_at d i)))
unfolding file_exist get_dir
file_exist-eq_found dir name ext n i d e =
    rw (e, file_exist, get_dir)
      (elim (Option-cases
        (find_file 0 (file_matches name ext (n == 3)) (live_files (entry_at d i)))) [
          | inl o ↦ rw o
          | inr (j, o) ↦ rw o
        ])

-- The size of a file that the loop finds.
pub found-small :
    (e : DirectoryEntry) (test : FileDirectory → Bool) (j : ℕ)
    → IsListing e
    → find_file 0 test (live_files e) ≡ some j
    → (get_or e.files j no_file).fsize < 2 ^ 31
found-small e test j h found =
    let same : rounds e.n_files ≡ e.n_files = ground (arith, h.few) in
    let lt = find_file-lt 0 test (live_files e) j found in
    let inside : j < e.n_files = omega (arith, length-take (rounds e.n_files) e.files, same) in
    rw (← get_or-take e.files (rounds e.n_files) j no_file (omega arith))
      (All-get_or (λ f. f.fsize < 2 ^ 31) (live_files e) j no_file (omega arith) h.sizes)
