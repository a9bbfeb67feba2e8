-- ===== src/FileSystem/Calls.antt =====
-- The handlers of csc452fuse.c that look at names: getattr, readdir, mkdir and mknod, and those
-- that do nothing.
pub mod Mkdir
pub mod Mknod
use operating_system_impleme.Prelude.{
  List, [], get_or, if◌then◌else◌, leb, length, ltb, map, none, not, set, some, take, ℕ, ◌%◌, ◌*◌,
  ◌+◌, ◌-◌, ◌==◌, ◌^◌, ◌||◌, ◌∷◌,
}
use operating_system_impleme.Bytes.Text.{c_str, str_cpy, str_eq}
use operating_system_impleme.Bytes.Region.{write_at}
use operating_system_impleme.FileSystem.Layout.{
  DirectoryEntry, RootDirectory, encode_entry, encode_root, max_dirs_in_root, max_extension,
  max_filename, max_files_in_dir,
}
use operating_system_impleme.FileSystem.Path.{Parsed, dot, scan_path, slash}
use operating_system_impleme.FileSystem.Disk.{
  Disk, dir_exists, file_exist, get_dir, get_root, int_minus_one, live_files, long_minus_one,
  next_free_block, no_directory, no_file, rounds, start_of,
}
use operating_system_impleme.FileSystem.Reply.{
  Reply, edquot, eexist, enametoolong, enoent, enospc, eperm, err, ok, strayed,
}

-- The fields of `struct stat` that getattr writes.
pub record Stat : Type 0 where
  pub st_mode : ℕ
  pub st_nlink : ℕ
  pub st_size : ℕ

-- S_IFDIR | 0755 and S_IFREG | 0666
abbrev pub dir_mode : ℕ
dir_mode = 0o40755

abbrev pub file_mode : ℕ
file_mode = 0o100666

abbrev pub root_path : List ℕ
root_path = slash ∷ []

abbrev pub dir_stat : Stat → Stat
dir_stat st = record st { st_mode = dir_mode; st_nlink = 2 }

-- An int that is stored in a size_t or an off_t is sign-extended.
abbrev pub extend_int : ℕ → ℕ
extend_int n = if ltb n (2 ^ 31) then n else n + (2 ^ 64 - 2 ^ 32)

unfoldable pub getattr_file : Parsed → ℕ → Disk → Stat → Reply × Stat
getattr_file p n d st =
    let fsize = file_exist p.directory p.filename p.extension n d in
    if fsize == int_minus_one
    then (err enoent, st)
    else (ok 0, record st { st_mode = file_mode; st_nlink = 2; st_size = extend_int fsize })

unfoldable pub getattr_parsed : Parsed → Disk → Stat → Reply × Stat
getattr_parsed p d st = elim p.path_comp [
  | none ↦ (err enoent, st)
  | some n ↦
      if n == 1
      then elim (dir_exists p.directory d) [
        | none ↦ (err enoent, st)
        | some i ↦ (ok 0, dir_stat st)
      ]
      else if n == 2 || n == 3
      then getattr_file p n d st
      else (err enoent, st)
]

-- csc452_getattr; the disk is only read.
unfoldable pub getattr : List ℕ → Disk → Stat → Reply × Stat
getattr path d st =
    if str_eq path root_path then (ok 0, dir_stat st) else getattr_parsed (scan_path path) d st

-- The names that csc452_readdir hands to `filler`, in order.
unfoldable pub readdir : List ℕ → Disk → Reply × List (List ℕ)
readdir path d =
    if str_eq path root_path
    then (let root = get_root d in
        (
          ok 0,
          (dot ∷ [])
              ∷ (dot ∷ dot ∷ [])
              ∷ map (λ e. c_str e.dname) (take (rounds root.n_directories) root.directories),
        ))
    else (let p = scan_path path in
        elim p.path_comp [
          | none ↦ (err enoent, [])
          | some n ↦
              if n == 1
              then elim (get_dir p.directory d) [
                | none ↦ (err enoent, [])
                | some (entry, i) ↦ (ok 0, map (λ f. c_str f.fname) (live_files entry))
              ]
              else (err enoent, [])
        ])

-- The new root of csc452_mkdir: the next slot filled, the count raised.
unfoldable pub add_directory : RootDirectory → List ℕ → ℕ → RootDirectory
add_directory root directory address =
    let n = root.n_directories in
    let slot = get_or root.directories n no_directory in
    record root {
      n_directories = n + 1;
      directories =
          set root.directories n
            (record { dname = str_cpy slot.dname directory; n_start_block = address });
    }

-- csc452_mkdir, once the path is found to name a directory that may be made.
unfoldable pub make_directory : List ℕ → Disk → Reply × Disk
make_directory directory d =
    let root = get_root d in
    if leb max_dirs_in_root root.n_directories
    then (err enospc, d)
    else (let (address, d') = next_free_block d in
        if address == long_minus_one
        then (err edquot, d')
        else (ok 0, write_at 0 (encode_root (add_directory root directory address)) d'))

unfoldable pub mkdir_parsed : Parsed → Disk → Reply × Disk
mkdir_parsed p d = elim p.path_comp [
  | none ↦ (err eperm, d)
  | some n ↦
      if n == 1
      then (if ltb max_filename (length p.directory)
          then (err enametoolong, d)
          else elim (dir_exists p.directory d) [
            | some i ↦ (err eexist, d)
            | none ↦ make_directory p.directory d
          ])
      else (err eperm, d)
]

-- csc452_mkdir
unfoldable pub mkdir : List ℕ → Disk → Reply × Disk
mkdir path d = mkdir_parsed (scan_path path) d

-- The new entry of csc452_mknod: the next slot filled with an empty file, the count raised.
unfoldable pub add_file : DirectoryEntry → List ℕ → List ℕ → ℕ → DirectoryEntry
add_file entry filename extension address =
    let n = entry.n_files in
    let slot = get_or entry.files n no_file in
    record entry {
      n_files = n + 1;
      files = set entry.files n (record {
        fname = str_cpy slot.fname filename;
        fext = str_cpy slot.fext extension;
        fsize = 0;
        n_start_block = address;
      });
    }

-- What csc452_mknod's stack holds before it: where `entry` lies, and in the four bytes below `root`.
pub record Stack : Type 0 where
  pub unfilled : DirectoryEntry
  pub below_root : ℕ

-- `root.directories[-1].nStartBlock`: the structures are packed, so that its low half lies below the
-- root, and its high half is nDirectories: no offset that fseek refuses, with at most 29 of them.
unfoldable pub start_before : Stack → RootDirectory → ℕ
start_before stack root = stack.below_root % 2 ^ 32 + 2 ^ 32 * root.n_directories

-- csc452_mknod from its test of nFiles on, for an entry that is written to `start`.
unfoldable pub fill_entry : DirectoryEntry → ℕ → List ℕ → List ℕ → Disk → Reply × Disk
fill_entry entry start filename extension d =
    if leb max_files_in_dir entry.n_files
    then (err enospc, d)
    else (let (address, d') = next_free_block d in
        if address == long_minus_one
        then (err edquot, d')
        else (ok 0, write_at start (encode_entry (add_file entry filename extension address)) d'))

-- csc452_mknod, once the path is found to name a file that may be made. Where the directory is
-- missing, get_dir gives -1 and leaves `entry` as the stack had it, and the handler goes on.
unfoldable pub make_file : Stack → List ℕ → List ℕ → List ℕ → Disk → Reply × Disk
make_file stack directory filename extension d =
    let root = get_root d in
    elim (get_dir directory d) [
      | none ↦
          let (reply, d') =
            fill_entry stack.unfilled (start_before stack root) filename extension d in
          (strayed reply, d')
      | some (entry, dir_order) ↦ fill_entry entry (start_of root dir_order) filename extension d
    ]

unfoldable pub mknod_parsed : Stack → Parsed → Disk → Reply × Disk
mknod_parsed stack p d = elim p.path_comp [
  | none ↦ (err eperm, d)
  | some n ↦
      if n == 3
      then (if ltb max_filename (length p.filename) || ltb max_extension (length p.extension)
          then (err enametoolong, d)
          else if not (file_exist p.directory p.filename p.extension 3 d == int_minus_one)
          then (err eexist, d)
          else make_file stack p.directory p.filename p.extension d)
      else (err eperm, d)
]

-- csc452_mknod
unfoldable pub mknod : Stack → List ℕ → Disk → Reply × Disk
mknod stack path d = mknod_parsed stack (scan_path path) d

-- csc452_rmdir, csc452_unlink, csc452_truncate, csc452_open and csc452_flush all return success and
-- change nothing.
unfoldable pub rmdir : List ℕ → Disk → Reply × Disk
rmdir path d = (ok 0, d)

unfoldable pub unlink : List ℕ → Disk → Reply × Disk
unlink path d = (ok 0, d)

unfoldable pub truncate : List ℕ → ℕ → Disk → Reply × Disk
truncate path size d = (ok 0, d)

unfoldable pub open_file : List ℕ → Disk → Reply × Disk
open_file path d = (ok 0, d)

unfoldable pub flush : List ℕ → Disk → Reply × Disk
flush path d = (ok 0, d)
