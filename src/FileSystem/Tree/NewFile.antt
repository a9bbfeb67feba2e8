-- ===== src/FileSystem/Tree/NewFile.antt =====
-- csc452_getattr and csc452_readdir of csc452fuse.c behind csc452_mknod.
use operating_system_impleme.Prelude.{
  Bool-cases, List, [], ap, inl, inr, none, refl, some, sym, ℕ, ◌++◌, ◌∙◌, ◌∷◌, ◌≡◌, ◌≢◌,
}
use operating_system_impleme.Bytes.Text.{IsText, eq_of_str_eq, str_eq}
use operating_system_impleme.FileSystem.Disk.{Disk, dir_exists, file_exist, get_dir}
use operating_system_impleme.FileSystem.Path.{scan_directory, scan_path}
use operating_system_impleme.FileSystem.Reply.{
  Errno, Reply, edquot, eexist, enametoolong, enospc, eperm, err, ok,
}
use operating_system_impleme.FileSystem.Calls.{
  Stack, Stat, file_mode, getattr, getattr_file, getattr_parsed, mknod, readdir, root_path,
}
use operating_system_impleme.FileSystem.Tree.{IsTree, entry_at}
use operating_system_impleme.FileSystem.Calls.Mknod.{file_names}
use operating_system_impleme.FileSystem.Tree.Outcome.{
  MknodOutcome, dir_full, disk_full, exists_already, made, mknod_outcome, no_parent, not_a_file,
  too_long,
}

ok-err : (n : ℕ) (e : Errno) → err e ≢ ok n
ok-err n e h = cc

root_parse : (scan_path root_path).path_comp ≡ none
unfolding scan_path scan_directory
root_parse = refl

not_root : (path : List ℕ) → (scan_path path).path_comp ≡ some 3 → path ≢ root_path
not_root path three e =
    let both = sym root_parse ∙ (sym (ap (λ p. (scan_path p).path_comp) e) ∙ three) in cc

getattr-new_file :
    (path : List ℕ) (d : Disk) (st : Stat)
    → (scan_path path).path_comp ≡ some 3
    → file_exist (scan_path path).directory (scan_path path).filename (scan_path path).extension 3 d
      ≡ 0
    → getattr path d st ≡ (ok 0, record { st_mode = file_mode; st_nlink = 2; st_size = 0 })
unfolding getattr getattr_parsed getattr_file
getattr-new_file path d st three empty = elim (Bool-cases (str_eq path root_path)) [
  | inl root ↦ absurd (not_root path three (eq_of_str_eq path root_path root))
  | inr other ↦ rw (other, getattr_parsed, three, getattr_file, empty) refl
]

getattr-made_file :
    (stack : Stack) (path : List ℕ) (d : Disk) (st : Stat) (r : Reply × Disk)
    → (scan_path path).path_comp ≡ some 3
    → MknodOutcome stack path d r
    → r.0 ≡ ok 0
    → getattr path r.1 st ≡ (ok 0, record { st_mode = file_mode; st_nlink = 2; st_size = 0 })
getattr-made_file stack path d st _ three (not_a_file _) h = absurd (ok-err 0 eperm h)
getattr-made_file stack path d st _ three (too_long _ _) h = absurd (ok-err 0 enametoolong h)
getattr-made_file stack path d st _ three (exists_already _ _) h = absurd (ok-err 0 eexist h)
getattr-made_file stack path d st _ three (no_parent _ _ _ _) h = cc
getattr-made_file stack path d st _ three (dir_full _ _ _) h = absurd (ok-err 0 enospc h)
getattr-made_file stack path d st _ three (disk_full _) h = absurd (ok-err 0 edquot h)
getattr-made_file stack path d st _ three (made i d' _ _ m) h =
    getattr-new_file path d' st three m.empty

-- If csc452_mknod returns 0 on the path of a file, on a disk that keeps the invariant, and has not gone
-- on without its directory, csc452_getattr finds an empty regular file there.
pub getattr-mknod :
    (stack : Stack) (path : List ℕ) (d : Disk) (st : Stat)
    → IsText path
    → IsTree d
    → (scan_path path).path_comp ≡ some 3
    → (mknod stack path d).0 ≡ ok 0
    → getattr path (mknod stack path d).1 st
      ≡ (ok 0, record { st_mode = file_mode; st_nlink = 2; st_size = 0 })
getattr-mknod stack path d st text t three done =
    getattr-made_file stack path d st (mknod stack path d) three (mknod_outcome stack path d text t)
      done

-- The listing of a directory that is there.
readdir-dir :
    (path dir : List ℕ) (i : ℕ) (d : Disk)
    → (scan_path path).path_comp ≡ some 1
    → (scan_path path).directory ≡ dir
    → dir_exists dir d ≡ some i
    → readdir path d ≡ (ok 0, file_names (entry_at d i))
unfolding readdir get_dir
readdir-dir path dir i d one same found = elim (Bool-cases (str_eq path root_path)) [
  | inl root ↦
      let at_root = eq_of_str_eq path root_path root in
      let both = sym root_parse ∙ (sym (ap (λ p. (scan_path p).path_comp) at_root) ∙ one) in cc
  | inr other ↦ rw (other, one, same, get_dir, found) refl
]

readdir-made_file :
    (stack : Stack) (path dir_path : List ℕ) (d : Disk) (r : Reply × Disk)
    → (scan_path dir_path).path_comp ≡ some 1
    → (scan_path dir_path).directory ≡ (scan_path path).directory
    → MknodOutcome stack path d r
    → r.0 ≡ ok 0
    → (scan_path path).path_comp ≡ some 3
    → readdir dir_path r.1 ≡ (ok 0, (readdir dir_path d).1 ++ ((scan_path path).filename ∷ []))
readdir-made_file stack path dir_path d _ one same (not_a_file _) h three =
    absurd (ok-err 0 eperm h)
readdir-made_file stack path dir_path d _ one same (too_long _ _) h three =
    absurd (ok-err 0 enametoolong h)
readdir-made_file stack path dir_path d _ one same (exists_already _ _) h three =
    absurd (ok-err 0 eexist h)
readdir-made_file stack path dir_path d _ one same (no_parent _ _ _ _) h three = cc
readdir-made_file stack path dir_path d _ one same (dir_full _ _ _) h three =
    absurd (ok-err 0 enospc h)
readdir-made_file stack path dir_path d _ one same (disk_full _) h three =
    absurd (ok-err 0 edquot h)
readdir-made_file stack path dir_path d _ one same (made i d' old _ m) h three =
    let dir = (scan_path path).directory in
    readdir-dir dir_path dir i d' one same m.found
    ∙ rw (readdir-dir dir_path dir i d one same old) (rw m.named refl)

-- If csc452_mknod returns 0 on the path of a file, on a disk that keeps the invariant, and has not gone
-- on without its directory, csc452_readdir of its directory lists what it listed before, and the file's name, without the extension, behind that.
pub readdir-mknod :
    (stack : Stack) (path dir_path : List ℕ) (d : Disk)
    → IsText path
    → IsTree d
    → (scan_path path).path_comp ≡ some 3
    → (scan_path dir_path).path_comp ≡ some 1
    → (scan_path dir_path).directory ≡ (scan_path path).directory
    → (mknod stack path d).0 ≡ ok 0
    → readdir dir_path (mknod stack path d).1
      ≡ (ok 0, (readdir dir_path d).1 ++ ((scan_path path).filename ∷ []))
readdir-mknod stack path dir_path d text t three one same done =
    readdir-made_file stack path dir_path d (mknod stack path d) one same
      (mknod_outcome stack path d text t) done three
