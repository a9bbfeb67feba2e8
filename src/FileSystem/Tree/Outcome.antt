-- ===== src/FileSystem/Tree/Outcome.antt =====
-- csc452_mknod on every path and disk.
use native.Mathlib.Decide.{ℕ_discrete}
use operating_system_impleme.Prelude.{
  Bool-cases, List, Option, arith, false, inl, inr, leb, length, ltb, none, some, tests, ℕ, ◌%◌,
  ◌*◌, ◌+◌, ◌<◌, ◌==◌, ◌^◌, ◌||◌, ◌≡◌, ◌≢◌, ◌≤◌, ◌⊎◌,
}
use operating_system_impleme.Bytes.Text.{IsText}
use operating_system_impleme.FileSystem.Disk.{
  Disk, dir_exists, file_exist, get_root, int_minus_one, last_taken, long_minus_one,
}
use operating_system_impleme.Bytes.Region.{write_at}
use operating_system_impleme.FileSystem.Layout.{encode_entry}
use operating_system_impleme.FileSystem.Disk.Allocation.{Allocated, next_free_block_cases}
use operating_system_impleme.FileSystem.Path.{Parsed, scan_path}
use operating_system_impleme.FileSystem.Path.Texts.{scan_path-AreTexts}
use operating_system_impleme.FileSystem.Reply.{
  Reply, edquot, eexist, enametoolong, enospc, eperm, err, ok, strayed,
}
use operating_system_impleme.FileSystem.Calls.{
  Stack, add_file, fill_entry, make_file, mknod, mknod_parsed, start_before,
}
use operating_system_impleme.FileSystem.Tree.{
  IsTree, dir_count, dir_exists-lt, entry_at, get_dir_cases,
}
use operating_system_impleme.FileSystem.Tree.Mknod.{MadeFile, made-MadeFile}

-- What csc452_mknod makes of the entry that its stack held, where the directory does not exist.
pub data StrayOutcome (stack : Stack) (path : List ℕ) (d : Disk) : Reply × Disk → Type 0 where
  stray_full : 17 ≤ stack.unfilled.n_files → StrayOutcome stack path d (err enospc, d)
  stray_disk_full :
      stack.unfilled.n_files < 17
      → length d ≤ last_taken d + 1024
      → StrayOutcome stack path d (err edquot, d)
  stray_written :
      (address : ℕ) (d₁ : Disk)
      → stack.unfilled.n_files < 17
      → Allocated d address d₁
      → StrayOutcome stack path d (
        ok 0,
        write_at
            (stack.below_root % 2 ^ 32 + 2 ^ 32 * dir_count d)
            (encode_entry (
              add_file stack.unfilled (scan_path path).filename (scan_path path).extension address))
            d₁,
      )

pub data MknodOutcome (stack : Stack) (path : List ℕ) (d : Disk) : Reply × Disk → Type 0 where
  not_a_file : (scan_path path).path_comp ≢ some 3 → MknodOutcome stack path d (err eperm, d)
  too_long :
      (scan_path path).path_comp ≡ some 3
      → (8 < length (scan_path path).filename) ⊎ (3 < length (scan_path path).extension)
      → MknodOutcome stack path d (err enametoolong, d)
  exists_already :
      (scan_path path).path_comp ≡ some 3
      → file_exist
          (scan_path path).directory
          (scan_path path).filename
          (scan_path path).extension
          3
          d
        ≢ int_minus_one
      → MknodOutcome stack path d (err eexist, d)
  no_parent :
      (scan_path path).path_comp ≡ some 3
      → dir_exists (scan_path path).directory d ≡ none
      → (r : Reply × Disk) → StrayOutcome stack path d r
      → MknodOutcome stack path d (strayed r.0, r.1)
  dir_full :
      (i : ℕ)
      → dir_exists (scan_path path).directory d ≡ some i
      → 17 ≤ (entry_at d i).n_files
      → MknodOutcome stack path d (err enospc, d)
  disk_full : length d ≤ last_taken d + 1024 → MknodOutcome stack path d (err edquot, d)
  made :
      (i : ℕ) (d' : Disk)
      → dir_exists (scan_path path).directory d ≡ some i
      → file_exist
          (scan_path path).directory
          (scan_path path).filename
          (scan_path path).extension
          3
          d
        ≡ int_minus_one
      → MadeFile
          (scan_path path).directory
          (scan_path path).filename
          (scan_path path).extension
          i
          d
          d'
      → MknodOutcome stack path d (ok 0, d')

module _ (stack : Stack) (path : List ℕ) (text : IsText path) (d : Disk) (t : IsTree d)
    (three : (scan_path path).path_comp ≡ some 3) where
  abbrev p : Parsed
  p = scan_path path

  fill_entry-stray :
      StrayOutcome stack path d
        (fill_entry stack.unfilled (start_before stack (get_root d)) p.filename p.extension d)
  unfolding fill_entry start_before
  fill_entry-stray = elim (Bool-cases (leb 17 stack.unfilled.n_files)) [
    | inl full ↦ rw full (stray_full (omega tests))
    | inr room ↦ elim (next_free_block_cases d t.disk) [
      | inl (b, full) ↦ rw (room, b) (stray_disk_full (ground arith) (omega arith))
      | inr (address, d₁, b, a) ↦
          let test : (address == long_minus_one) ≡ false = ground (arith, a.room, t.disk.small) in
          rw (room, b, test) (stray_written address d₁ (ground arith) a)
    ]
  ]

  make_file-outcome :
      length p.filename ≤ 8
      → length p.extension ≤ 3
      → file_exist p.directory p.filename p.extension 3 d ≡ int_minus_one
      → MknodOutcome stack path d (make_file stack p.directory p.filename p.extension d)
  unfolding make_file fill_entry
  make_file-outcome name_low ext_low absent = elim (get_dir_cases p.directory d) [
    | inl (e, g) ↦ rw (g, make_file) (no_parent three e _ fill_entry-stray)
    | inr (i, e, g) ↦
        rw (g, make_file)
          (elim (Bool-cases (leb 17 (entry_at d i).n_files)) [
            | inl full ↦ rw full (dir_full i e (omega tests))
            | inr room ↦ elim (next_free_block_cases d t.disk) [
              | inl (b, full) ↦ rw (room, b) (disk_full (omega arith))
              | inr (address, d₁, b, a) ↦
                  let test : (address == long_minus_one) ≡ false =
                    ground (arith, a.room, t.disk.small) in
                  let texts = scan_path-AreTexts path text in
                  rw (room, b, test)
                    (made i _ e absent (
                      made-MadeFile p.directory p.filename p.extension i d t
                        (dir_exists-lt t p.directory i e) name_low ext_low texts.filename
                        texts.extension (ground arith) address d₁ a e absent))
            ]
          ])
  ]

  mknod_parsed-three : MknodOutcome stack path d (mknod_parsed stack p d)
  unfolding mknod_parsed
  mknod_parsed-three =
      rw (three, mknod_parsed)
        (elim (Bool-cases (ltb 8 (length p.filename) || ltb 3 (length p.extension))) [
          | inl long ↦ rw long (too_long three (ground arith))
          | inr short ↦
              elim (Bool-cases
                (file_exist p.directory p.filename p.extension 3 d == int_minus_one)) [
                  | inl absent ↦
                      rw (short, absent)
                        (make_file-outcome (ground arith) (ground arith) (ground arith))
                  | inr present ↦ rw (short, present) (exists_already three (λ e. ground arith))
                ]
        ])

mknod_parsed-other :
    (stack : Stack) (p : Parsed) (d : Disk)
    → p.path_comp ≢ some 3
    → mknod_parsed stack p d ≡ (err eperm, d)
unfolding mknod_parsed
mknod_parsed-other stack p d h = ground arith

Option-discrete : Discrete (Option ℕ)
Option-discrete = hlevel ℕ_discrete

-- csc452_mknod on any path without NUL and any disk that keeps the invariant: with the path of a file
-- that is new, in a directory that exists, and a free slot and a free block, the file is made, empty:
-- only that directory's entry and the tracker change, so that the lookup of every other file, every
-- other directory and every other block below the tracker are as they were, the new file's first block
-- among them. Otherwise the errno says what was wrong, and the disk is as it was. With a directory that
-- does not exist the handler does the same to the entry that its stack held: it refuses it if its count
-- or the disk is full, and else takes a block and writes that entry with the file to the offset that it
-- reads in front of the root's array.
pub mknod_outcome :
    (stack : Stack) (path : List ℕ) (d : Disk)
    → IsText path
    → IsTree d
    → MknodOutcome stack path d (mknod stack path d)
unfolding mknod
mknod_outcome stack path d text t = elim (Option-discrete (scan_path path).path_comp (some 3)) [
  | yes three ↦ mknod_parsed-three stack path text d t three
  | no other ↦ rw (mknod_parsed-other stack (scan_path path) d other) (not_a_file other)
]

-- csc452_mknod keeps the invariant of the disk, unless the path names a file in a directory that does
-- not exist.
pub mknod-IsTree :
    (stack : Stack) (path : List ℕ) (d : Disk)
    → IsText path
    → IsTree d
    → ((scan_path path).path_comp ≡ some 3 → dir_exists (scan_path path).directory d ≢ none)
    → IsTree (mknod stack path d).1
mknod-IsTree stack path d text t there = kept (mknod_outcome stack path d text t)
  where
    kept : {r : Reply × Disk} → MknodOutcome stack path d r → IsTree r.1
    kept (not_a_file _) = t
    kept (too_long _ _) = t
    kept (exists_already _ _) = t
    kept (no_parent three missing _ _) = absurd (there three missing)
    kept (dir_full _ _ _) = t
    kept (disk_full _) = t
    kept (made i d' _ _ m) = m.tree
