-- ===== src/FileSystem/Tree/NewDirectory.antt =====
-- csc452_getattr and csc452_readdir of csc452fuse.c behind csc452_mkdir.
use operating_system_impleme.Prelude.{
  Bool-cases, List, [], inl, inr, refl, some, ℕ, ◌++◌, ◌∙◌, ◌∷◌, ◌≡◌, ◌≢◌,
}
use operating_system_impleme.Bytes.Text.{IsText, str_eq, str_eq_refl}
use operating_system_impleme.FileSystem.Disk.{Disk, dir_exists, get_root}
use operating_system_impleme.FileSystem.Disk.Allocation.{IsDisk}
use operating_system_impleme.FileSystem.Path.{dot, scan_path}
use operating_system_impleme.FileSystem.Reply.{
  Errno, Reply, edquot, eexist, enametoolong, enospc, eperm, err, ok,
}
use operating_system_impleme.FileSystem.Calls.{
  Stat, dir_stat, getattr, getattr_parsed, mkdir, readdir, root_path,
}
use operating_system_impleme.FileSystem.Calls.Mkdir.{
  MkdirOutcome, disk_full, exists_already, made, mkdir_outcome, names, not_one_name, root_full,
  too_long,
}

ok-err : (n : ℕ) (e : Errno) → err e ≢ ok n
ok-err n e h = cc

getattr-dir :
    (path : List ℕ) (d : Disk) (st : Stat) (i : ℕ)
    → (scan_path path).path_comp ≡ some 1
    → dir_exists (scan_path path).directory d ≡ some i
    → getattr path d st ≡ (ok 0, dir_stat st)
unfolding getattr getattr_parsed
getattr-dir path d st i one found = elim (Bool-cases (str_eq path root_path)) [
  | inl root ↦ rw root refl
  | inr other ↦ rw (other, getattr_parsed, one, found) refl
]

getattr-made_dir :
    (path : List ℕ) (d : Disk) (st : Stat) (r : Reply × Disk)
    → MkdirOutcome path d r
    → r.0 ≡ ok 0
    → getattr path r.1 st ≡ (ok 0, dir_stat st)
getattr-made_dir path d st _ (not_one_name _) h = absurd (ok-err 0 eperm h)
getattr-made_dir path d st _ (too_long _ _) h = absurd (ok-err 0 enametoolong h)
getattr-made_dir path d st _ (exists_already _ _ _) h = absurd (ok-err 0 eexist h)
getattr-made_dir path d st _ (root_full _ _ _) h = absurd (ok-err 0 enospc h)
getattr-made_dir path d st _ (disk_full _ _ _) h = absurd (ok-err 0 edquot h)
getattr-made_dir path d st _ (made d' one fresh m) h =
    let name = (scan_path path).directory in
    getattr-dir path d' st (get_root d).n_directories one
      (m.lookup name ∙ rw (fresh, str_eq_refl name) refl)

-- If csc452_mkdir returns 0 on a disk of whole blocks, csc452_getattr finds a directory at that path.
pub getattr-mkdir :
    (path : List ℕ) (d : Disk) (st : Stat)
    → IsText path
    → IsDisk d
    → (mkdir path d).0 ≡ ok 0
    → getattr path (mkdir path d).1 st ≡ (ok 0, dir_stat st)
getattr-mkdir path d st text h done =
    getattr-made_dir path d st (mkdir path d) (mkdir_outcome path d text h) done

readdir-root :
    (d : Disk) → readdir root_path d ≡ (ok 0, (dot ∷ []) ∷ (dot ∷ dot ∷ []) ∷ names (get_root d))
unfolding readdir
readdir-root d = rw (str_eq_refl root_path) refl

listed-made :
    (path : List ℕ) (d : Disk) (r : Reply × Disk)
    → MkdirOutcome path d r
    → r.0 ≡ ok 0
    → names (get_root r.1) ≡ names (get_root d) ++ ((scan_path path).directory ∷ [])
listed-made path d _ (not_one_name _) h = absurd (ok-err 0 eperm h)
listed-made path d _ (too_long _ _) h = absurd (ok-err 0 enametoolong h)
listed-made path d _ (exists_already _ _ _) h = absurd (ok-err 0 eexist h)
listed-made path d _ (root_full _ _ _) h = absurd (ok-err 0 enospc h)
listed-made path d _ (disk_full _ _ _) h = absurd (ok-err 0 edquot h)
listed-made path d _ (made d' one fresh m) h = m.listed

-- If csc452_mkdir returns 0 on a disk of whole blocks, csc452_readdir of "/" lists what it listed before,
-- and the new directory's name behind that.
pub readdir-mkdir :
    (path : List ℕ) (d : Disk)
    → IsText path
    → IsDisk d
    → (mkdir path d).0 ≡ ok 0
    → readdir root_path (mkdir path d).1
      ≡ (ok 0, (readdir root_path d).1 ++ ((scan_path path).directory ∷ []))
readdir-mkdir path d text h done =
    readdir-root (mkdir path d).1
    ∙ rw (readdir-root d)
        (rw (listed-made path d (mkdir path d) (mkdir_outcome path d text h) done) refl)
