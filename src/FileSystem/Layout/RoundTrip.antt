-- ===== src/FileSystem/Layout/RoundTrip.antt =====
-- Writing a structure of csc452fuse.c and reading it back, and the reverse.
use operating_system_impleme.Prelude.{
  All, List, [], append_assoc, arith, drop-append_self, length, length-append, refl, suc,
  take-append_self, take_all, zero, ℕ, ◌*◌, ◌++◌, ◌<◌, ◌^◌, ◌∷◌, ◌≡◌,
}
use operating_system_impleme.Bytes.Words.{
  IsBytes, IsBytes-append, le, le-IsBytes, length-le, unle-le,
}
use operating_system_impleme.FileSystem.Layout.{
  Directory, DirectoryEntry, DiskBlock, FileDirectory, RootDirectory, decode_array, decode_block,
  decode_directory, decode_entry, decode_file, decode_root, encode_array, encode_block,
  encode_directory, encode_entry, encode_file, encode_root, max_data_in_block, max_dirs_in_root,
  max_files_in_dir,
}

-- What the C types say of a structure: the sizes of its arrays and the ranges of its integers.
pub record IsDirectory (d : Directory) : Type 0 where
  pub name_size : length d.dname ≡ 9
  pub name_bytes : IsBytes d.dname
  pub start_long : d.n_start_block < 2 ^ 64

pub record IsFile (f : FileDirectory) : Type 0 where
  pub name_size : length f.fname ≡ 9
  pub name_bytes : IsBytes f.fname
  pub ext_size : length f.fext ≡ 4
  pub ext_bytes : IsBytes f.fext
  pub size_long : f.fsize < 2 ^ 64
  pub start_long : f.n_start_block < 2 ^ 64

pub record IsRoot (r : RootDirectory) : Type 0 where
  pub count_int : r.n_directories < 2 ^ 32
  pub slots : length r.directories ≡ max_dirs_in_root
  pub each : All IsDirectory r.directories
  pub pad_size : length r.padding ≡ 15
  pub pad_bytes : IsBytes r.padding

pub record IsEntry (e : DirectoryEntry) : Type 0 where
  pub count_int : e.n_files < 2 ^ 32
  pub slots : length e.files ≡ max_files_in_dir
  pub each : All IsFile e.files
  pub pad_size : length e.padding ≡ 15
  pub pad_bytes : IsBytes e.padding

pub record IsBlock (b : DiskBlock) : Type 0 where
  pub content_size : length b.content ≡ max_data_in_block
  pub content_bytes : IsBytes b.content
  pub next_long : b.n_next_block < 2 ^ 64

-- An array of structures, if each of them survives.
module _ {ℓ κ} {A : Type ℓ} (P : A → Type κ) (decode : List ℕ → A) (encode : A → List ℕ)
    (size : ℕ) where
  array_round_trip :
      ((x : A) → P x → length (encode x) ≡ size)
      → ((x : A) → P x → decode (encode x) ≡ x)
      → (n : ℕ) (xs : List A) (rest : List ℕ) → All P xs
      → length xs ≡ n
      → decode_array decode size n (encode_array encode xs ++ rest) ≡ xs
  unfolding decode_array encode_array
  array_round_trip sized survives zero [] rest h e = refl
  array_round_trip sized survives zero (x ∷ xs) rest h e = absurd (omega arith)
  array_round_trip sized survives (suc n) [] rest h e = absurd (omega arith)
  array_round_trip sized survives (suc n) (x ∷ xs) rest h e =
      let whole = append_assoc (encode x) (encode_array encode xs) rest in
      let front = take-append_self size (encode x) (encode_array encode xs ++ rest) (sized x h.0) in
      let back = drop-append_self size (encode x) (encode_array encode xs ++ rest) (sized x h.0) in
      rw (
        whole,
        front,
        back,
        survives x h.0,
        array_round_trip sized survives n xs rest h.1 (omega arith),
      )

  length-encode_array :
      ((x : A) → P x → length (encode x) ≡ size)
      → (xs : List A) → All P xs
      → length (encode_array encode xs) ≡ length xs * size
  unfolding encode_array
  length-encode_array sized [] h = omega arith
  length-encode_array sized (x ∷ xs) h = omega (
    arith,
    length-append (encode x) (encode_array encode xs),
    sized x h.0,
    length-encode_array sized xs h.1,
  )

  encode_array-IsBytes :
      ((x : A) → P x → IsBytes (encode x))
      → (xs : List A) → All P xs
      → IsBytes (encode_array encode xs)
  unfolding encode_array
  encode_array-IsBytes bytes [] h = tt
  encode_array-IsBytes bytes (x ∷ xs) h =
      IsBytes-append (encode x) (encode_array encode xs) (bytes x h.0)
        (encode_array-IsBytes bytes xs h.1)

directory_round_trip : (d : Directory) → IsDirectory d → decode_directory (encode_directory d) ≡ d
unfolding decode_directory encode_directory
directory_round_trip d h =
    let start = drop-append_self 9 d.dname (le 8 d.n_start_block) h.name_size in
    let name = take-append_self 9 d.dname (le 8 d.n_start_block) h.name_size in
    let whole = take_all 8 (le 8 d.n_start_block) (length-le 8 d.n_start_block) in
    rw (name, start, whole, unle-le 8 d.n_start_block h.start_long)

length-encode_directory : (d : Directory) → IsDirectory d → length (encode_directory d) ≡ 17
unfolding encode_directory
length-encode_directory d h =
    omega (
      arith,
      length-append d.dname (le 8 d.n_start_block),
      length-le 8 d.n_start_block,
      h.name_size,
    )

encode_directory-IsBytes : (d : Directory) → IsDirectory d → IsBytes (encode_directory d)
unfolding encode_directory
encode_directory-IsBytes d h = IsBytes-append d.dname _ h.name_bytes (le-IsBytes 8 d.n_start_block)

file_round_trip : (f : FileDirectory) → IsFile f → decode_file (encode_file f) ≡ f
unfolding decode_file encode_file
file_round_trip f h =
    let tail = le 8 f.fsize ++ le 8 f.n_start_block in
    let name = take-append_self 9 f.fname (f.fext ++ tail) h.name_size in
    let rest = drop-append_self 9 f.fname (f.fext ++ tail) h.name_size in
    let ext = take-append_self 4 f.fext tail h.ext_size in
    let rest' = drop-append_self 4 f.fext tail h.ext_size in
    let size = take-append_self 8 (le 8 f.fsize) (le 8 f.n_start_block) (length-le 8 f.fsize) in
    let rest'' = drop-append_self 8 (le 8 f.fsize) (le 8 f.n_start_block) (length-le 8 f.fsize) in
    let start = take_all 8 (le 8 f.n_start_block) (length-le 8 f.n_start_block) in
    rw (
      name,
      rest,
      ext,
      rest',
      size,
      rest'',
      start,
      unle-le 8 f.n_start_block h.start_long,
      unle-le 8 f.fsize h.size_long,
    )

length-encode_file : (f : FileDirectory) → IsFile f → length (encode_file f) ≡ 29
unfolding encode_file
length-encode_file f h =
    let tail = le 8 f.fsize ++ le 8 f.n_start_block in
    omega (
      arith,
      length-append f.fname (f.fext ++ tail),
      length-append f.fext tail,
      length-append (le 8 f.fsize) (le 8 f.n_start_block),
      length-le 8 f.fsize,
      length-le 8 f.n_start_block,
    )

encode_file-IsBytes : (f : FileDirectory) → IsFile f → IsBytes (encode_file f)
unfolding encode_file
encode_file-IsBytes f h = IsBytes-append f.fname _ h.name_bytes (
    IsBytes-append f.fext _ h.ext_bytes
      (IsBytes-append (le 8 f.fsize) _ (le-IsBytes 8 f.fsize) (le-IsBytes 8 f.n_start_block)))

pub root_round_trip : (r : RootDirectory) → IsRoot r → decode_root (encode_root r) ≡ r
unfolding decode_root encode_root
root_round_trip r h =
    let dirs = encode_array encode_directory r.directories in
    let count =
      take-append_self 4 (le 4 r.n_directories) (dirs ++ r.padding) (length-le 4 r.n_directories) in
    let rest =
      drop-append_self 4 (le 4 r.n_directories) (dirs ++ r.padding) (length-le 4 r.n_directories) in
    let sized : length dirs ≡ 493 = omega (
      arith,
      length-encode_array IsDirectory decode_directory encode_directory 17 length-encode_directory
          r.directories h.each,
      h.slots,
    ) in
    let pad = drop-append_self 493 dirs r.padding sized in
    let array =
      array_round_trip IsDirectory decode_directory encode_directory 17 length-encode_directory
        directory_round_trip max_dirs_in_root r.directories r.padding h.each h.slots in
    rw (count, rest, pad, unle-le 4 r.n_directories h.count_int, array)

pub length-encode_root : (r : RootDirectory) → IsRoot r → length (encode_root r) ≡ 512
unfolding encode_root
length-encode_root r h =
    let dirs = encode_array encode_directory r.directories in
    omega (
      arith,
      length-append (le 4 r.n_directories) (dirs ++ r.padding),
      length-append dirs r.padding,
      length-le 4 r.n_directories,
      length-encode_array IsDirectory decode_directory encode_directory 17 length-encode_directory
          r.directories h.each,
    )

pub encode_root-IsBytes : (r : RootDirectory) → IsRoot r → IsBytes (encode_root r)
unfolding encode_root
encode_root-IsBytes r h = IsBytes-append (le 4 r.n_directories) _ (le-IsBytes 4 r.n_directories) (
    IsBytes-append (encode_array encode_directory r.directories) _
      (encode_array-IsBytes IsDirectory decode_directory encode_directory 17
        encode_directory-IsBytes r.directories h.each)
      h.pad_bytes)

pub entry_round_trip : (e : DirectoryEntry) → IsEntry e → decode_entry (encode_entry e) ≡ e
unfolding decode_entry encode_entry
entry_round_trip e h =
    let files = encode_array encode_file e.files in
    let count = take-append_self 4 (le 4 e.n_files) (files ++ e.padding) (length-le 4 e.n_files) in
    let rest = drop-append_self 4 (le 4 e.n_files) (files ++ e.padding) (length-le 4 e.n_files) in
    let sized : length files ≡ 493 = omega (
      arith,
      length-encode_array IsFile decode_file encode_file 29 length-encode_file e.files h.each,
      h.slots,
    ) in
    let pad = drop-append_self 493 files e.padding sized in
    let array =
      array_round_trip IsFile decode_file encode_file 29 length-encode_file file_round_trip
        max_files_in_dir e.files e.padding h.each h.slots in
    rw (count, rest, pad, unle-le 4 e.n_files h.count_int, array)

pub length-encode_entry : (e : DirectoryEntry) → IsEntry e → length (encode_entry e) ≡ 512
unfolding encode_entry
length-encode_entry e h =
    let files = encode_array encode_file e.files in
    omega (
      arith,
      length-append (le 4 e.n_files) (files ++ e.padding),
      length-append files e.padding,
      length-le 4 e.n_files,
      length-encode_array IsFile decode_file encode_file 29 length-encode_file e.files h.each,
    )

pub encode_entry-IsBytes : (e : DirectoryEntry) → IsEntry e → IsBytes (encode_entry e)
unfolding encode_entry
encode_entry-IsBytes e h = IsBytes-append (le 4 e.n_files) _ (le-IsBytes 4 e.n_files) (
    IsBytes-append (encode_array encode_file e.files) _
      (encode_array-IsBytes IsFile decode_file encode_file 29 encode_file-IsBytes e.files h.each)
      h.pad_bytes)

-- A data block that is written is read back as it was.
pub block_round_trip : (b : DiskBlock) → IsBlock b → decode_block (encode_block b) ≡ b
unfolding decode_block encode_block
block_round_trip b h =
    let front = take-append_self 504 b.content (le 8 b.n_next_block) h.content_size in
    let back = drop-append_self 504 b.content (le 8 b.n_next_block) h.content_size in
    rw (front, back, unle-le 8 b.n_next_block h.next_long)

pub length-encode_block : (b : DiskBlock) → IsBlock b → length (encode_block b) ≡ 512
unfolding encode_block
length-encode_block b h =
    omega (arith, length-append b.content (le 8 b.n_next_block), length-le 8 b.n_next_block)
