-- ===== src/FileSystem/Tests.antt =====
-- The handlers of csc452fuse.c on a disk of a few blocks.
use operating_system_impleme.Prelude.{
  List, [], ap, arith, none, refl, replicate, some, sym, true, ℕ, ◌*◌, ◌++◌, ◌+◌, ◌∙◌, ◌∷◌, ◌≡◌,
  ◌≢◌, ◌≤◌, ◌⊎◌,
}
use operating_system_impleme.FileSystem.Path.{
  is_space, parsed, scan_directory, scan_extension, scan_filename, scan_path, skip_space,
  span_until, word,
}
use operating_system_impleme.FileSystem.Disk.{
  Disk, dir_exists, file_exist, find_directory, find_file, get_dir, get_root, last_taken,
  long_minus_one, next_free_block, tracker,
}
use operating_system_impleme.FileSystem.Reply.{Reply, ok}
use operating_system_impleme.FileSystem.Calls.{
  Stack, Stat, add_directory, dir_stat, file_mode, fill_entry, getattr, make_directory, make_file,
  mkdir, mkdir_parsed, mknod, mknod_parsed, readdir, root_path,
}
use operating_system_impleme.Bytes.Words.{le, unle}
use operating_system_impleme.Bytes.Region.{read_at, write_at}
use operating_system_impleme.Bytes.Text.{IsText, c_str, str_cpy, str_eq}
use operating_system_impleme.FileSystem.Layout.{
  DirectoryEntry, DiskBlock, decode_array, decode_block, decode_directory, decode_entry,
  decode_file, decode_root, encode_array, encode_directory, encode_root,
}
use operating_system_impleme.FileSystem.Disk.Allocation.{Allocated, next_free_block_cases}
use operating_system_impleme.FileSystem.Disk.Lookup.{read_at-IsImage}
use operating_system_impleme.FileSystem.Calls.Mkdir.{MkdirOutcome, mkdir_outcome}
use operating_system_impleme.FileSystem.Tree.{IsTree}
use operating_system_impleme.FileSystem.Tree.Mkdir.{mkdir-IsTree}
use operating_system_impleme.FileSystem.Tree.Blank.{zeros-IsTree}
use operating_system_impleme.FileSystem.Tree.NewDirectory.{getattr-mkdir, readdir-mkdir}
use operating_system_impleme.FileSystem.Tree.NewFile.{getattr-mknod, readdir-mknod}
use operating_system_impleme.FileSystem.Tree.Outcome.{MknodOutcome, mknod-IsTree, mknod_outcome}
use operating_system_impleme.FileSystem.Io.InBlock.{write_loop-read_loop}
use operating_system_impleme.FileSystem.Io.{Cursor, block_at, read, read_loop, write, write_loop}
use operating_system_impleme.FileSystem.Layout.Decode.{decode_block-IsBlock}

-- Six zero blocks, as `dd if=/dev/zero` leaves them.
abbrev blank : Disk
blank = replicate (6 * 512) 0

abbrev dir_path : List ℕ
dir_path = b'/' ∷ b'd' ∷ []

abbrev file_path_1 : List ℕ
file_path_1 = b'/' ∷ b'd' ∷ b'/' ∷ b'f' ∷ b'.' ∷ b't' ∷ []

parse_file : scan_path file_path_1 ≡ parsed (some 3) (b'd' ∷ []) (b'f' ∷ []) (b't' ∷ [])
unfolding scan_path scan_directory scan_filename scan_extension span_until word skip_space is_space
parse_file = refl

-- A stack that held zeros.
abbrev no_stack : Stack
no_stack = record { unfilled = decode_entry (replicate 512 0); below_root = 0 }

abbrev with_file : Disk
with_file = (mknod no_stack file_path_1 (mkdir dir_path blank).1).1

written : Reply × Disk
written = write file_path_1 (b'h' ∷ b'i' ∷ []) 0 with_file

read_back : Reply × List ℕ
read_back = read file_path_1 2 0 written.1

-- a write across the end of the first block
long_read : Reply × List ℕ
long_read =
    let d = (write file_path_1 (replicate 510 7 ++ 8 ∷ 9 ∷ []) 0 with_file).1 in
    read file_path_1 4 508 d

dir_path-IsText : IsText dir_path
dir_path-IsText = (omega arith, omega arith, (omega arith, omega arith, tt))

file_path_1-IsText : IsText file_path_1
file_path_1-IsText = (
  omega arith,
  omega arith,
  (
    omega arith,
    omega arith,
    (
      omega arith,
      omega arith,
      (omega arith, omega arith, (omega arith, omega arith, (omega arith, omega arith, tt))),
    ),
  ),
)

blank-IsTree : IsTree blank
blank-IsTree = (zeros-IsTree 6 (omega arith) (omega arith)).0

abbrev with_dir : Disk
with_dir = (mkdir dir_path blank).1

with_dir-IsTree : IsTree with_dir
with_dir-IsTree = mkdir-IsTree dir_path blank dir_path-IsText blank-IsTree

mkdir-IsTree_example : IsTree (mkdir dir_path blank).1
mkdir-IsTree_example = mkdir-IsTree dir_path blank dir_path-IsText blank-IsTree

mkdir_outcome_example : MkdirOutcome dir_path blank (mkdir dir_path blank)
mkdir_outcome_example = mkdir_outcome dir_path blank dir_path-IsText blank-IsTree.disk

mknod_outcome_example :
    MknodOutcome no_stack file_path_1 with_dir (mknod no_stack file_path_1 with_dir)
mknod_outcome_example =
    mknod_outcome no_stack file_path_1 with_dir file_path_1-IsText with_dir-IsTree

dir_there : dir_exists (scan_path file_path_1).directory with_dir ≢ none
unfolding mkdir mkdir_parsed make_directory scan_path scan_directory scan_filename scan_extension
    span_until word skip_space is_space dir_exists find_directory get_root decode_root decode_array
    decode_directory read_at unle next_free_block add_directory encode_root encode_array
    encode_directory le write_at c_str str_eq str_cpy
dir_there e = cc

mknod-IsTree_example : IsTree (mknod no_stack file_path_1 with_dir).1
mknod-IsTree_example =
    mknod-IsTree no_stack file_path_1 with_dir file_path_1-IsText with_dir-IsTree
      (λ three e. dir_there e)

next_free_block_cases_example :
    ((next_free_block blank ≡ (long_minus_one, blank)) × (tracker blank ≤ last_taken blank + 512))
    ⊎ ((address : ℕ) × (d' : Disk) × (next_free_block blank ≡ (address, d'))
        × Allocated blank address d')
next_free_block_cases_example = next_free_block_cases blank blank-IsTree.disk

abbrev first_block : DiskBlock
first_block = decode_block (read_at 0 512 with_dir)

abbrev no_stat : Stat
no_stat = record { st_mode = 0; st_nlink = 0; st_size = 0 }

mkdir-done : (mkdir dir_path blank).0 ≡ ok 0
unfolding mkdir mkdir_parsed make_directory scan_path scan_directory scan_filename scan_extension
    span_until word skip_space is_space dir_exists find_directory get_root decode_root decode_array
    decode_directory read_at unle next_free_block
mkdir-done = refl

getattr-mkdir_example : getattr dir_path (mkdir dir_path blank).1 no_stat ≡ (ok 0, dir_stat no_stat)
getattr-mkdir_example =
    getattr-mkdir dir_path blank no_stat dir_path-IsText blank-IsTree.disk mkdir-done

readdir-mkdir_example :
    readdir root_path (mkdir dir_path blank).1
    ≡ (ok 0, (readdir root_path blank).1 ++ ((scan_path dir_path).directory ∷ []))
readdir-mkdir_example = readdir-mkdir dir_path blank dir_path-IsText blank-IsTree.disk mkdir-done

mknod-done : (mknod no_stack file_path_1 with_dir).0 ≡ ok 0
unfolding mkdir mkdir_parsed make_directory scan_path scan_directory scan_filename scan_extension
    span_until word skip_space is_space dir_exists find_directory get_root decode_root decode_array
    decode_directory read_at unle next_free_block mknod mknod_parsed make_file fill_entry file_exist
    find_file get_dir decode_entry decode_file add_directory encode_root encode_array
    encode_directory le write_at c_str str_eq str_cpy
mknod-done = refl

file_path_1-three : (scan_path file_path_1).path_comp ≡ some 3
file_path_1-three = ap (λ p. p.path_comp) parse_file

getattr-mknod_example :
    getattr file_path_1 (mknod no_stack file_path_1 with_dir).1 no_stat
    ≡ (ok 0, record { st_mode = file_mode; st_nlink = 2; st_size = 0 })
getattr-mknod_example =
    getattr-mknod no_stack file_path_1 with_dir no_stat file_path_1-IsText with_dir-IsTree
      file_path_1-three mknod-done

parse_dir : scan_path dir_path ≡ parsed (some 1) (b'd' ∷ []) [] []
unfolding scan_path scan_directory scan_filename scan_extension span_until word skip_space is_space
parse_dir = refl

same_dir : (scan_path dir_path).directory ≡ (scan_path file_path_1).directory
same_dir = ap (λ p. p.directory) parse_dir ∙ sym (ap (λ p. p.directory) parse_file)

readdir-mknod_example :
    readdir dir_path (mknod no_stack file_path_1 with_dir).1
    ≡ (ok 0, (readdir dir_path with_dir).1 ++ ((scan_path file_path_1).filename ∷ []))
readdir-mknod_example =
    readdir-mknod no_stack file_path_1 dir_path with_dir file_path_1-IsText with_dir-IsTree
      file_path_1-three (ap (λ p. p.path_comp) parse_dir) same_dir mknod-done

abbrev first_cursor : Cursor
first_cursor = record { address = 512; block = first_block }

write_loop-read_loop_example :
    ((write_loop (7 ∷ 8 ∷ []) 500 first_cursor with_dir).0 ≡ true)
    × (let d' = (write_loop (7 ∷ 8 ∷ []) 500 first_cursor with_dir).1 in
        read_loop 2 500 (block_at 512 d') d' ≡ 7 ∷ 8 ∷ [])
write_loop-read_loop_example =
    write_loop-read_loop (7 ∷ 8 ∷ []) 500 first_cursor with_dir (omega arith, (omega arith, tt))
      (decode_block-IsBlock (read_at 0 512 with_dir) (
        read_at-IsImage 0 with_dir with_dir-IsTree.disk.bytes
          (omega (arith, with_dir-IsTree.disk.inside))))
      (omega arith)

-- The entry in the block of the directory that was made.
abbrev an_entry : DirectoryEntry
an_entry = decode_entry (read_at 512 512 with_file)
