-- ===== src/FileSystem/Calls/Mknod.antt =====
-- csc452_mknod of csc452fuse.c: the new entry, and the loops over it.
use mathlib.Core.List.{map-append}
use Prim.Native.Nat.add
use operating_system_impleme.Prelude.{
  All-get_or, All-set, Bool, List, [], arith, get_or, if◌then◌else◌, length, length-set,
  length-take, map, none, refl, some, suc, take, take-set_next, true, ℕ, ◌&&◌, ◌++◌, ◌+◌, ◌<◌, ◌^◌,
  ◌∷◌, ◌≡◌, ◌≤◌,
}
use operating_system_impleme.Bytes.Text.{
  IsText, c_str, c_str-str_cpy, length-str_cpy, str_cpy, str_cpy-IsBytes, str_eq,
}
use operating_system_impleme.FileSystem.Layout.{DirectoryEntry, FileDirectory}
use operating_system_impleme.FileSystem.Layout.RoundTrip.{IsEntry, IsFile}
use operating_system_impleme.FileSystem.Disk.{file_matches, find_file, live_files, no_file, rounds}
use operating_system_impleme.FileSystem.Disk.Lookup.{find_file-append, or_else}
use operating_system_impleme.FileSystem.Calls.{add_file}

-- What csc452_readdir lists of a directory: the names without their extensions.
abbrev pub file_names : DirectoryEntry → List (List ℕ)
file_names entry = map (λ f. c_str f.fname) (live_files entry)

-- The new slot holds the name, the extension and the address.
module _ (entry : DirectoryEntry) (h : IsEntry entry) (name ext : List ℕ) (address : ℕ)
    (name_low : length name ≤ 8) (ext_low : length ext ≤ 3) (name_text : IsText name)
    (ext_text : IsText ext) (room : entry.n_files < 17) (small : address < 2 ^ 64) where
  abbrev old_slot : FileDirectory
  old_slot = get_or entry.files entry.n_files no_file

  abbrev pub new_file : FileDirectory
  new_file = record {
    fname = str_cpy old_slot.fname name;
    fext = str_cpy old_slot.fext ext;
    fsize = 0;
    n_start_block = address;
  }

  old-IsFile : IsFile old_slot
  old-IsFile = All-get_or IsFile entry.files entry.n_files no_file (omega (arith, h.slots)) h.each

  new-IsFile : IsFile new_file
  new-IsFile = record {
    name_size =
        omega (arith, length-str_cpy old_slot.fname name (omega (arith, old-IsFile)), old-IsFile);
    name_bytes = str_cpy-IsBytes old_slot.fname name name_text old-IsFile.name_bytes;
    ext_size =
        omega (arith, length-str_cpy old_slot.fext ext (omega (arith, old-IsFile)), old-IsFile);
    ext_bytes = str_cpy-IsBytes old_slot.fext ext ext_text old-IsFile.ext_bytes;
    size_long = omega arith;
    start_long = small;
  }

  pub add_file-IsEntry : IsEntry (add_file entry name ext address)
  unfolding add_file
  add_file-IsEntry = record {
    count_int = omega arith;
    slots = omega (arith, length-set entry.files entry.n_files new_file, h.slots);
    each = All-set IsFile entry.files entry.n_files new_file new-IsFile h.each;
    pad_size = h.pad_size;
    pad_bytes = h.pad_bytes;
  }

  pub live-add_file :
      live_files (add_file entry name ext address)
      ≡ take entry.n_files entry.files ++ (new_file ∷ [])
  unfolding add_file
  live-add_file =
      let more : rounds (entry.n_files + 1) ≡ suc entry.n_files = ground arith in
      rw more (take-set_next entry.files entry.n_files new_file (omega (arith, h.slots)))

  pub live_old : live_files entry ≡ take entry.n_files entry.files
  live_old = let same : rounds entry.n_files ≡ entry.n_files = ground arith in rw same

  -- The names that csc452_readdir lists: the old ones, and the new one behind them.
  pub named-add_file :
      file_names (add_file entry name ext address) ≡ file_names entry ++ (name ∷ [])
  named-add_file =
      rw
        (
          live-add_file,
          live_old,
          map-append (λ (f : FileDirectory). c_str f.fname) (take entry.n_files entry.files)
              (new_file ∷ []),
          c_str-str_cpy old_slot.fname name name_text,
        )
        refl

  -- The loop over the new entry: the old answer, or else the new file's place.
  pub find-add_file :
      (test : FileDirectory → Bool)
      → find_file 0 test (live_files (add_file entry name ext address))
        ≡ or_else
            (find_file 0 test (live_files entry))
            (if test new_file then some entry.n_files else none)
  find-add_file test =
      let n = entry.n_files in
      let count : length (take n entry.files) ≡ n =
        omega (arith, length-take n entry.files, h.slots) in
      rw (
        live-add_file,
        live_old,
        find_file-append 0 test (take n entry.files) new_file,
        count,
        add.zero,
      )

  -- The new file answers to its own name and extension, and to no other pair.
  pub new_file-matches :
      (name' ext' : List ℕ)
      → file_matches name' ext' true new_file ≡ (str_eq name' name && str_eq ext' ext)
  unfolding file_matches
  new_file-matches name' ext' =
      rw (c_str-str_cpy old_slot.fname name name_text, c_str-str_cpy old_slot.fext ext ext_text)
