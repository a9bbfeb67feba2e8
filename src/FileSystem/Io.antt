-- ===== src/FileSystem/Io.antt =====
-- csc452_read and csc452_write: the walk along the chain of blocks of a file.
pub mod InBlock
use operating_system_impleme.Prelude.{
  Bool, List, Option, [], false, get_or, if◌then◌else◌, length, ltb, none, set, some, suc, true,
  zero, ℕ, ◌%◌, ◌+◌, ◌-◌, ◌==◌, ◌^◌, ◌∷◌,
}
use operating_system_impleme.Bytes.Region.{read_at, write_at}
use operating_system_impleme.FileSystem.Layout.{
  DirectoryEntry, DiskBlock, block_size, decode_block, encode_block, encode_entry,
  max_data_in_block,
}
use operating_system_impleme.FileSystem.Path.{Parsed, scan_path}
use operating_system_impleme.FileSystem.Disk.{
  Disk, dir_exists, file_exist, file_matches, find_file, get_dir, get_root, int_minus_one,
  live_files, long_minus_one, next_free_block, no_file, start_of,
}
use operating_system_impleme.FileSystem.Reply.{
  Errno, Reply, efbig, einval, eisdir, enoent, err, ok, stray,
}
use operating_system_impleme.FileSystem.Calls.{extend_int}

-- `fseek(fp, address, SEEK_SET); fread(&file_block, sizeof(csc452_disk_block), 1, fp);`
unfoldable pub block_at : ℕ → Disk → DiskBlock
block_at address d = decode_block (read_at address block_size d)

-- A block in memory, and the address that it was read from.
pub record Cursor : Type 0 where
  pub address : ℕ
  pub block : DiskBlock

abbrev pub cursor_at : ℕ → Disk → Cursor
cursor_at a d = record { address = a; block = block_at a d }

-- `while (begin_index > MAX_DATA_IN_BLOCK)`, with `begin_index` as fuel: it falls in each round.
unfoldable pub skip_from : ℕ → ℕ → Cursor → Disk → Cursor × ℕ
skip_from zero begin_index c d = (c, begin_index)
skip_from (suc fuel) begin_index c d =
    let rest =
      skip_from fuel (begin_index - max_data_in_block) (cursor_at c.block.n_next_block d) d in
    if ltb max_data_in_block begin_index then rest else (c, begin_index)

unfoldable pub skip_blocks : ℕ → Cursor → Disk → Cursor × ℕ
skip_blocks begin_index c d = skip_from begin_index begin_index c d

-- The loop of csc452_read: `left` bytes to go, the rest of `block` from `begin_index` on first. In
-- the source `file_block_left` is 504 - begin_index throughout.
unfoldable pub read_loop : ℕ → ℕ → DiskBlock → Disk → List ℕ
read_loop zero begin_index block d = []
read_loop (suc left) begin_index block d =
    let next = block_at block.n_next_block d in
    let here = get_or block.content begin_index 0 ∷ read_loop left (begin_index + 1) block d in
    let there = get_or next.content 0 0 ∷ read_loop left 1 next d in
    if begin_index == max_data_in_block then there else here

-- What the loops of csc452_read put into the buffer.
unfoldable pub read_bytes : ℕ → ℕ → ℕ → Disk → List ℕ
read_bytes start offset size d =
    let (c, begin_index) = skip_blocks (offset % 2 ^ 32) (cursor_at start d) d in
    read_loop size begin_index c.block d

-- The paths that csc452_read and csc452_write refuse, or the name of a file.
unfoldable pub file_path : Parsed → Disk → Option Errno
file_path p d = elim p.path_comp [
  | none ↦ some enoent
  | some n ↦
      if n == 1
      then elim (dir_exists p.directory d) [ some i ↦ some eisdir | none ↦ some enoent ]
      else if n == 3
      then none
      else some enoent
]

-- csc452_read after the checks of the path. The file has just been found, so that the loop over the
-- entry finds it again: `none` is not met.
unfoldable pub read_file : Parsed → ℕ → ℕ → Disk → Reply × List ℕ
read_file p size offset d =
    let fsize = file_exist p.directory p.filename p.extension 3 d in
    if fsize == int_minus_one
    then (err enoent, [])
    else if size == 0
    then (ok 0, [])
    else elim (get_dir p.directory d) [
      | none ↦ (stray, [])
      | some (entry, dir_order) ↦
          elim (find_file 0 (file_matches p.filename p.extension true) (live_files entry)) [
            | none ↦ (stray, [])
            | some i ↦
                if ltb (extend_int fsize) offset
                then (err einval, [])
                else (let count = if ltb (extend_int fsize) size then extend_int fsize else size in
                    let start = (get_or entry.files i no_file).n_start_block in
                    (ok count, read_bytes start offset count d))
          ]
    ]

-- csc452_read: the reply and what stands in the buffer.
unfoldable pub read : List ℕ → ℕ → ℕ → Disk → Reply × List ℕ
read path size offset d =
    let p = scan_path path in
    elim (file_path p d) [ some e ↦ (err e, []) | none ↦ read_file p size offset d ]

-- `fseek(fp, address, SEEK_SET); fwrite(&file_block, sizeof(csc452_disk_block), 1, fp);`
unfoldable pub save : Cursor → Disk → Disk
save c d = write_at c.address (encode_block c.block) d

unfoldable pub put_byte : ℕ → ℕ → Cursor → Cursor
put_byte i b c = record c { block = record c.block { content = set c.block.content i b } }

-- The cursor at the end of its block moves on, to a new block if it stands on the last. None: the
-- disk is full.
unfoldable pub advance : Cursor → Disk → Option (Cursor × Disk)
advance c d =
    if c.block.n_next_block == 0
    then (let (address, d') = next_free_block d in
        if address == long_minus_one
        then none
        else (let c' = record c { block = record c.block { n_next_block = address } } in
            let d'' = save c' d' in some (cursor_at address d'', d'')))
    else (let d' = save c d in some (cursor_at c.block.n_next_block d', d'))

-- The loop of csc452_write over the bytes that are left, and its last write of the block. On a full
-- disk the handler returns at once: what the block in memory holds is lost.
unfoldable pub write_loop : List ℕ → ℕ → Cursor → Disk → Bool × Disk
write_loop [] begin_index c d = (true, save c d)
write_loop (b ∷ bs) begin_index c d =
    let here = write_loop bs (begin_index + 1) (put_byte begin_index b c) d in
    let moved = advance c d in
    let there : Bool × Disk = elim moved [
      | none ↦ (false, d)
      | some (c', d') ↦ write_loop bs 1 (put_byte 0 b c') d'
    ] in
    if begin_index == max_data_in_block then there else here

-- offset - fsize + size, as a size_t.
abbrev pub size_increase : ℕ → ℕ → ℕ → ℕ
size_increase fsize offset size = (offset + 2 ^ 64 - fsize + size) % 2 ^ 64

unfoldable pub grow_file : DirectoryEntry → ℕ → ℕ → DirectoryEntry
grow_file entry i increase =
    let f = get_or entry.files i no_file in
    record entry { files = set entry.files i (record f { fsize = (f.fsize + increase) % 2 ^ 64 }) }

-- The size of the file is updated before any byte is written.
unfoldable pub update_size : DirectoryEntry → ℕ → ℕ → ℕ → Disk → Disk
update_size entry dir_order i increase d =
    if increase == 0
    then d
    else write_at (start_of (get_root d) dir_order) (encode_entry (grow_file entry i increase)) d

unfoldable pub write_bytes : ℕ → List ℕ → Cursor → Disk → Bool × Disk
write_bytes offset bytes first d =
    let (c, begin_index) = skip_blocks (offset % 2 ^ 32) first d in write_loop bytes begin_index c d

-- csc452_write after the checks of the path; `none` is not met, as in read_file.
unfoldable pub write_file : Parsed → List ℕ → ℕ → Disk → Reply × Disk
write_file p bytes offset d =
    let fsize = file_exist p.directory p.filename p.extension 3 d in
    if fsize == int_minus_one
    then (err enoent, d)
    else if length bytes == 0
    then (ok 0, d)
    else elim (get_dir p.directory d) [
      | none ↦ (stray, d)
      | some (entry, dir_order) ↦
          elim (find_file 0 (file_matches p.filename p.extension true) (live_files entry)) [
            | none ↦ (stray, d)
            | some i ↦
                if ltb (extend_int fsize) offset
                then (err efbig, d)
                else (let first = cursor_at (get_or entry.files i no_file).n_start_block d in
                    let increase = size_increase (extend_int fsize) offset (length bytes) in
                    let d' = update_size entry dir_order i increase d in
                    let (done, d'') = write_bytes offset bytes first d' in
                    (if done then ok (length bytes) else err efbig, d''))
          ]
    ]

-- csc452_write
unfoldable pub write : List ℕ → List ℕ → ℕ → Disk → Reply × Disk
write path bytes offset d =
    let p = scan_path path in
    elim (file_path p d) [ some e ↦ (err e, d) | none ↦ write_file p bytes offset d ]
