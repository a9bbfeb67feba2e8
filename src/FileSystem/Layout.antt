-- ===== src/FileSystem/Layout.antt =====
-- The packed structures of csc452fuse.c, and their images on the disk: one block each.
pub mod RoundTrip
pub mod Decode
use operating_system_impleme.Prelude.{List, [], drop, suc, take, zero, ℕ, ◌++◌, ◌+◌, ◌-◌, ◌/◌, ◌∷◌}
use operating_system_impleme.Bytes.Words.{le, unle}

abbrev pub block_size : ℕ
block_size = 512

abbrev pub max_filename : ℕ
max_filename = 8

abbrev pub max_extension : ℕ
max_extension = 3

-- (512 - 4) / (9 + 4 + 8 + 8)
abbrev pub max_files_in_dir : ℕ
max_files_in_dir = (block_size - 4) / ((max_filename + 1) + (max_extension + 1) + 8 + 8)

-- (512 - 4) / (9 + 8)
abbrev pub max_dirs_in_root : ℕ
max_dirs_in_root = (block_size - 4) / ((max_filename + 1) + 8)

abbrev pub max_data_in_block : ℕ
max_data_in_block = block_size - 8

-- A char array is its bytes; an int, a long and a size_t are their bit patterns.
pub record FileDirectory : Type 0 where
  pub fname : List ℕ
  pub fext : List ℕ
  pub fsize : ℕ
  pub n_start_block : ℕ

pub record DirectoryEntry : Type 0 where
  pub n_files : ℕ
  pub files : List FileDirectory
  pub padding : List ℕ

pub record Directory : Type 0 where
  pub dname : List ℕ
  pub n_start_block : ℕ

pub record RootDirectory : Type 0 where
  pub n_directories : ℕ
  pub directories : List Directory
  pub padding : List ℕ

pub record DiskBlock : Type 0 where
  pub content : List ℕ
  pub n_next_block : ℕ

-- The `n` structures of `size` bytes each that stand one behind another.
unfoldable pub decode_array {ℓ} : {A : Type ℓ} → (List ℕ → A) → ℕ → ℕ → List ℕ → List A
decode_array decode size zero bs = []
decode_array decode size (suc n) bs =
    decode (take size bs) ∷ decode_array decode size n (drop size bs)

unfoldable pub encode_array {ℓ} : {A : Type ℓ} → (A → List ℕ) → List A → List ℕ
encode_array encode [] = []
encode_array encode (x ∷ xs) = encode x ++ encode_array encode xs

unfoldable pub decode_directory : List ℕ → Directory
decode_directory bs = record { dname = take 9 bs; n_start_block = unle (take 8 (drop 9 bs)) }

unfoldable pub encode_directory : Directory → List ℕ
encode_directory d = d.dname ++ le 8 d.n_start_block

unfoldable pub decode_file : List ℕ → FileDirectory
decode_file bs = record {
  fname = take 9 bs;
  fext = take 4 (drop 9 bs);
  fsize = unle (take 8 (drop 4 (drop 9 bs)));
  n_start_block = unle (take 8 (drop 8 (drop 4 (drop 9 bs))));
}

unfoldable pub encode_file : FileDirectory → List ℕ
encode_file f = f.fname ++ (f.fext ++ (le 8 f.fsize ++ le 8 f.n_start_block))

-- `fread(root, sizeof(csc452_root_directory), 1, fp)`: how the bytes of a block are read.
unfoldable pub decode_root : List ℕ → RootDirectory
decode_root bs = record {
  n_directories = unle (take 4 bs);
  directories = decode_array decode_directory 17 max_dirs_in_root (drop 4 bs);
  padding = drop 493 (drop 4 bs);
}

unfoldable pub encode_root : RootDirectory → List ℕ
encode_root r = le 4 r.n_directories ++ (encode_array encode_directory r.directories ++ r.padding)

unfoldable pub decode_entry : List ℕ → DirectoryEntry
decode_entry bs = record {
  n_files = unle (take 4 bs);
  files = decode_array decode_file 29 max_files_in_dir (drop 4 bs);
  padding = drop 493 (drop 4 bs);
}

unfoldable pub encode_entry : DirectoryEntry → List ℕ
encode_entry e = le 4 e.n_files ++ (encode_array encode_file e.files ++ e.padding)

unfoldable pub decode_block : List ℕ → DiskBlock
decode_block bs = record {
  content = take max_data_in_block bs;
  n_next_block = unle (drop max_data_in_block bs);
}

unfoldable pub encode_block : DiskBlock → List ℕ
encode_block b = b.content ++ le 8 b.n_next_block
